-- ===== src/Client/Config.antt =====
-- client/http/worker.c: ParseOptions and TestConnect.
use tcpframe.Prelude.{
  ℕ, ◌-◌, ◌%◌, leb, ◌==◌, not, true, if◌then◌else◌, List, [], ◌∷◌, none, some, Run, done, exits,
  fault, ◌>>=◌, Ret, ret_succ, ret_fail,
}
use tcpframe.Prelude.Int.{ℤ, pos, negsuc}
use tcpframe.Prelude.Bytes.{length, take}
use tcpframe.Os.{Os, udp, connected, in_progress, connect_failed}
use tcpframe.Client.Types.{Worker, ip_len, word}

-- The options as getopt_long() hands them out, their numbers as atoi() reads them.
pub data ClientOption : Type 0 where
  opt_clients opt_requests opt_port : ℤ → ClientOption
  opt_host : List ℕ → ClientOption
  opt_keepalive opt_udp opt_random opt_unknown : ClientOption

-- An int stored to an unsigned number of `2 ^ w` values, for `m` = 2 ^ w that divides 2 ^ 32.
abbrev pub to_unsigned : ℕ → ℤ → ℕ
to_unsigned m (pos n) = n % m
to_unsigned m (negsuc n) = m - 1 - n % m

-- One turn of the loop of ParseOptions; PrintHelp ends the process. strncpy() copies at most 16
-- bytes, and then no final 0.
unfoldable pub parse_option : Worker → ClientOption → Run Worker
parse_option s (opt_clients n) = done (record s { need_client_num = to_unsigned word n })
parse_option s (opt_requests n) = done (record s { need_request_num = to_unsigned word n })
parse_option s (opt_port n) = done (record s { port = to_unsigned 65536 n })
parse_option s (opt_host h) = done (record s { host = take ip_len h })
parse_option s opt_keepalive = done (record s { keepalive = true })
parse_option s opt_udp = done (record s { protocol = udp })
parse_option s opt_random = done (record s { random_flag = true })
parse_option s opt_unknown = exits

unfoldable pub parse_all : Worker → List ClientOption → Run Worker
parse_all s [] = done s
parse_all s (o ∷ os) = parse_option s o >>= λ s'. parse_all s' os

module _ (os : Os) where
  open os use {World, socket, set_nonblock, connect, close, so_error, inet_addr}

  -- TestConnect. The socket of a connection that succeeds is not closed, nor where it has a pending
  -- error.
  unfoldable pub test_connect : World → Worker → Ret × World
  test_connect w s =
      let (made, w1) = socket w s.protocol in
      let addr : ℕ = elim (inet_addr s.host) [ none ↦ 4294967295 | some a ↦ a ] in
      elim made [
        | none ↦ (ret_fail, w1)
        | some fd ↦
            let (free, w2) = set_nonblock w1 fd in
            let (how, w3) = connect w2 fd addr s.port in
            let (pending, w4) = so_error w3 fd in
            let reached : Ret × World = elim pending [
              | none ↦ (ret_fail, w4)
              | some err ↦ (if err == 0 then ret_succ else ret_fail, w4)
            ] in
            if not free then (ret_fail, close w2 fd) else elim how [
              | connected ↦ reached
              | in_progress ↦ reached
              | connect_failed ↦ (ret_fail, close w3 fd)
            ]
      ]

  -- The checks of ParseOptions after its loop: the address, the port, and TestConnect, twice. A host
  -- without a final 0 is read past its end.
  unfoldable pub check_options : World → Worker → Run (Worker × World)
  unfolding test_connect
  check_options w s =
      let (first, w1) = test_connect w s in
      let (second, w2) = test_connect w1 s in
      let try : Run (Worker × World) = elim second [ ret_fail ↦ exits | ret_succ ↦ done (s, w2) ] in
      if leb ip_len (length s.host)
      then fault
      else elim (inet_addr s.host) [ none ↦ exits | some addr ↦ if s.port == 0 then exits else try ]

  -- ParseOptions
  unfoldable pub parse_options : World → Worker → List ClientOption → Run (Worker × World)
  unfolding parse_all check_options
  parse_options w s opts = parse_all s opts >>= λ s'. check_options w s'
