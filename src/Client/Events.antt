-- ===== src/Client/Events.antt =====
-- client/http/worker.c: how a client is registered, closed, opened and reused.
use tcpframe.Prelude.{
  ℕ, ◌+◌, ◌%◌, leb, not, ◌||◌, ◌==◌, Bool, true, false, if◌then◌else◌, Option, none, some, Run,
  done, exits, fault, ◌>>=◌, Ret, ret_succ, ret_fail,
}
use tcpframe.Prelude.Bytes.{length, write_at}
use tcpframe.Os.{
  Os, Mask, CtlOp, ctl_add, ctl_mod, ctl_del, event_none, event_readable, event_writable, union,
  without, is_none, connected, in_progress, connect_failed, Protocol, tcp, udp, no_delay,
}
use tcpframe.Client.Request.{encode_request}
use tcpframe.Client.Types.{
  ClientFd, Worker, ProcCallback, send_to_server, with_client, incr, decr, max_send_buf_len,
}

-- The client after ReactorAddEvent has stored the mask and the callback.
abbrev pub registered : ClientFd → Mask → ProcCallback → ClientFd
registered c mask func = record c {
  mask = union c.mask mask;
  w_func_proc = if mask.writable then some func else c.w_func_proc;
  r_func_proc = if mask.writable then c.r_func_proc else some func;
}

abbrev pub op_of : Mask → CtlOp → CtlOp
op_of m op = if is_none m then op else ctl_mod

abbrev pub ctl_ret : Bool → Ret
ctl_ret ok = if ok then ret_succ else ret_fail

-- The protocol, as a test.
abbrev pub is_udp : Protocol → Bool
is_udp udp = true
is_udp tcp = false

-- The request in the send buffer. `sendBufLen` is unsigned, so that the -1 of EncodeRequest is
-- 4294967295, and the tests for a negative length never hold.
unfoldable pub fill_request : ClientFd → ClientFd
fill_request c = elim (encode_request (max_send_buf_len + 1)) [
  | none ↦ record c { send_buf_len = 4294967295 }
  | some bs ↦ record c { send_buf = write_at c.send_buf 0 bs; send_buf_len = length bs }
]

-- The client of a new descriptor, before it is registered.
abbrev pub opened : ClientFd → ℕ → ClientFd
opened c fd =
    record (fill_request (record c { fd = some fd; mask = event_none; pep_loop = true })) {
      sended_len = 0;
      recv_buf_len = 0;
    }

module _ (os : Os) where
  open os use {World, epoll_ctl, close, socket, set_nonblock, connect, setsockopt, inet_addr}

  -- epoll_ctl and close() refuse the descriptor -1.
  unfoldable pub ctl_fd : World → CtlOp → Option ℕ → Mask → Bool × World
  ctl_fd w op fd m = elim fd [ none ↦ (false, w) | some f ↦ epoll_ctl w op f m ]

  unfoldable pub close_fd : World → Option ℕ → World
  close_fd w fd = elim fd [ none ↦ w | some f ↦ close w f ]

  -- ReactorAddEvent
  unfoldable pub reactor_add_event :
      World → Worker → ℕ → Mask → ProcCallback → Run (Ret × Worker × World)
  unfolding ctl_fd
  reactor_add_event w s i mask func =
      let c = s.clients i in
      let (ok, w') = ctl_fd w (op_of c.mask ctl_add) c.fd (union c.mask mask) in
      if not c.pep_loop
      then exits
      else if is_none mask
      then done (ret_fail, s, w)
      else done (ctl_ret ok, with_client s i (registered c mask func), w')

  -- ReactorDelEvent
  unfoldable pub reactor_del_event : World → Worker → ℕ → Mask → Run (Ret × Worker × World)
  unfolding ctl_fd
  reactor_del_event w s i mask =
      let c = s.clients i in
      let rest = without c.mask mask in
      let (ok, w') = ctl_fd w (op_of rest ctl_del) c.fd rest in
      if not c.pep_loop
      then fault
      else done (ctl_ret ok, with_client s i (record c { mask = rest }), w')

  -- ReactorCloseConnection. What epoll_ctl and close() return is not looked at.
  unfoldable pub reactor_close_connection : World → Worker → ℕ → Run (Worker × World)
  unfolding ctl_fd close_fd
  reactor_close_connection w s i =
      let c = s.clients i in
      let (gone, w1) = ctl_fd w ctl_del c.fd event_none in
      if c.pep_loop
      then done (
        record (with_client s i (record c { fd = none })) {
          live_client_num = decr s.live_client_num;
        },
        close_fd w1 c.fd,
      )
      else exits

  -- The end of ReactorClientInit: the place of the descriptor, which must be free. Where
  -- ReactorAddEvent fails the place keeps the descriptor that is closed.
  unfoldable pub place_client : World → Worker → ℕ → Run (Ret × Worker × World)
  unfolding reactor_add_event
  place_client w s fd =
      let i = fd % s.need_client_num in
      let c = s.clients i in
      let place : Run (Ret × Worker × World) = do
        (r, s1, w1) ←
            reactor_add_event w (with_client s i (opened c fd)) i event_writable send_to_server
        elim r [
          | ret_fail ↦ done (ret_fail, s1, close w1 fd)
          | ret_succ ↦ done (
            ret_succ,
            record s1 {
              live_client_num = incr s1.live_client_num;
              create_client_num = incr s1.create_client_num;
            },
            w1,
          )
        ]
      in if s.need_client_num == 0
        then fault
        else elim c.fd [ some other ↦ done (ret_fail, s, close w fd) | none ↦ place ]

  -- ReactorClientInit. The index that it is given is overwritten with UNSPECIFY_INDEX.
  unfoldable pub reactor_client_init : World → Worker → Run (Ret × Worker × World)
  unfolding place_client
  reactor_client_init w s =
      let (made, w1) = socket w s.protocol in
      elim made [
        | none ↦ done (ret_fail, s, w1)
        | some fd ↦
            let (free, w2) = set_nonblock w1 fd in
            let addr : ℕ = elim (inet_addr s.host) [ none ↦ 4294967295 | some a ↦ a ] in
            let (how, w3) = connect w2 fd addr s.port in
            let (swift, w4) = setsockopt w3 fd no_delay in
            let refused : Run (Ret × Worker × World) = done (ret_fail, s, close w3 fd) in
            let reached : Run (Ret × Worker × World) =
              if is_udp s.protocol
              then place_client w3 s fd
              else if swift
              then place_client w4 s fd
              else done (ret_fail, s, close w4 fd) in
            if not free
            then done (ret_fail, s, close w2 fd)
            else elim how [ connected ↦ reached | in_progress ↦ reached | connect_failed ↦ refused ]
      ]

  -- A client is closed and another opened. What ReactorClientInit returns is not looked at.
  unfoldable pub replace_client : World → Worker → ℕ → Run (Worker × World)
  unfolding reactor_close_connection reactor_client_init
  replace_client w s i = do
    (s1, w1) ← reactor_close_connection w s i
    (r, s2, w2) ← reactor_client_init w1 s1
    done (s2, w2)

  -- ReactorResetClient. What the two registrations return is not looked at.
  unfoldable pub reactor_reset_client : World → Worker → ℕ → Run (Worker × World)
  unfolding reactor_del_event reactor_add_event
  reactor_reset_client w s i = do
    (r1, s1, w1) ← reactor_del_event w s i event_readable
    (r2, s2, w2) ← reactor_add_event w1 s1 i event_writable send_to_server
    let c = record (s2.clients i) { recv_buf_len = 0; sended_len = 0 }
    let c' = if s2.random_flag then fill_request c else c
    done (record (with_client s2 i c') { reset_client_num = incr s2.reset_client_num }, w2)

  -- ReactorCloseConnectionNormal
  unfoldable pub reactor_close_connection_normal : World → Worker → ℕ → Run (Worker × World)
  unfolding reactor_reset_client replace_client
  reactor_close_connection_normal w s i =
      if leb s.need_request_num s.done_requests
      then done (record s { stop = 0 }, w)
      else if s.keepalive || is_udp s.protocol
      then reactor_reset_client w s i
      else replace_client w s i
