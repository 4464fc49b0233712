-- ===== src/SocketSetup.antt =====
-- src/socket_api.c: the options of a socket, and the socket that listens.
--
-- inet_aton is a parameter. A NULL pointer for the address is `none`.
pub mod Descriptors
use tcpframe.Prelude.{
  ℕ, ltb, leb, not, ◌==◌, Bool, true, false, if◌then◌else◌, List, Option, none, some, Ret, ret_succ,
  ret_fail,
}
use tcpframe.Prelude.Int.{ℤ, pos, negsuc}
use tcpframe.Os.{Os, Protocol, tcp, SockOpt, reuse_addr, keep_alive, send_buffer}

abbrev pub ret_of : Bool → Ret
ret_of ok = if ok then ret_succ else ret_fail

module _ (os : Os) where
  open os use {World, socket, setsockopt, set_nonblock, close, bind, listen}

  -- setsockopt on a descriptor that may be negative
  abbrev pub set_option : World → ℤ → SockOpt → Ret × World
  set_option w (negsuc n) opt = (ret_fail, w)
  set_option w (pos fd) opt = let (ok, w') = setsockopt w fd opt in (ret_of ok, w')

  -- PynServerSetNonblock; the two calls of fcntl are one of the system.
  unfoldable pub server_set_nonblock : World → ℤ → Ret × World
  server_set_nonblock w (negsuc n) = (ret_fail, w)
  server_set_nonblock w (pos fd) = let (ok, w') = set_nonblock w fd in (ret_of ok, w')

  -- PynServerSetTcpSendbuffer
  unfoldable pub server_set_tcp_sendbuffer : World → ℤ → ℤ → Ret × World
  server_set_tcp_sendbuffer w fd (negsuc n) = (ret_fail, w)
  server_set_tcp_sendbuffer w fd (pos size) =
      if size == 0 then (ret_fail, w) else set_option w fd (send_buffer size)

  -- PynServerSetTcpKeepalive
  unfoldable pub server_set_tcp_keepalive : World → ℤ → Ret × World
  server_set_tcp_keepalive w fd = set_option w fd keep_alive

  -- PynServerSetTcpReuseaddr
  unfoldable pub server_set_tcp_reuseaddr : World → ℤ → Ret × World
  server_set_tcp_reuseaddr w fd = set_option w fd reuse_addr

  -- PynCreateTcpSocket. What is stored as the descriptor is the comparison of the result with -1: 0
  -- for a new socket.
  unfoldable pub create_tcp_socket : World → ℤ × World
  unfolding server_set_nonblock
  create_tcp_socket w =
      let (made, w1) = socket w tcp in
      let (reused, w2) = set_option w1 (pos 0) reuse_addr in
      let (free, w3) = server_set_nonblock w2 (pos 0) in
      elim made [
        | none ↦ (negsuc 0, w1)
        | some fd ↦ elim reused [
          | ret_fail ↦ (negsuc 0, w2)
          | ret_succ ↦ elim free [ ret_fail ↦ (negsuc 0, w3) | ret_succ ↦ (pos 0, w3) ]
        ]
      ]

  -- The end of PynServerCreateTcpServer: the address, bind() and listen(), which close the socket
  -- where they fail.
  unfoldable pub bind_and_listen : (List ℕ → Option ℕ) → World → ℕ → List ℕ → ℕ → ℤ × World
  bind_and_listen inet_aton w fd ip port = elim (inet_aton ip) [
    | none ↦ (negsuc 0, close w fd)
    | some addr ↦
        let (bound, w1) = bind w fd addr port in
        let (listening, w2) = listen w1 fd in
        if not bound
        then (negsuc 0, close w1 fd)
        else if not listening
        then (negsuc 0, close w2 fd)
        else (pos fd, w2)
  ]

  -- PynServerCreateTcpServer
  unfoldable pub create_tcp_server : (List ℕ → Option ℕ) → World → Option (List ℕ) → ℤ → ℤ × World
  unfolding server_set_tcp_reuseaddr server_set_nonblock bind_and_listen
  create_tcp_server inet_aton w none port = (negsuc 0, w)
  create_tcp_server inet_aton w (some ip) (negsuc n) = (negsuc 0, w)
  create_tcp_server inet_aton w (some ip) (pos port) =
      let (made, w1) = socket w tcp in
      let create : ℤ × World = elim made [
        | none ↦ (negsuc 0, w1)
        | some fd ↦
            let (reused, w2) = server_set_tcp_reuseaddr w1 (pos fd) in
            let (free, w3) = server_set_nonblock w2 (pos fd) in
            elim reused [
              | ret_fail ↦ (negsuc 0, w2)
              | ret_succ ↦ elim free [
                | ret_fail ↦ (negsuc 0, w3)
                | ret_succ ↦ bind_and_listen inet_aton w3 fd ip port
              ]
            ]
      ] in
      if ltb port 1024 then (negsuc 0, w) else if ltb 65535 port then (negsuc 0, w) else create
