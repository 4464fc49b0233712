-- ===== src/Server/Defs.antt =====
-- The state of a process; how connections are opened and closed: ProcessAcceptCallback,
-- ConnectionTimeoutCallback and __DestroyConn.
use tcpframe.Prelude.{
  ℕ, zero, suc, not, ◌||◌, List, ◌==◌, if◌then◌else◌, update, Option, none, some, Run, done, exits,
  fault, out_of_fuel, ◌>>=◌, ret_succ, ret_fail,
}
use tcpframe.Prelude.Int.{pos, negsuc, ◌+ℤ◌}
use tcpframe.MinHeap
use tcpframe.MinHeap.{TimeoutCallback, connection_timeout, null}
use tcpframe.Os.{
  Os, event_both, event_readable, accepted, accept_again, accept_interrupted, accept_failed,
}
use tcpframe.Reactor.{
  EventBase, process_recv, epoll_et_type, epoll_lt_type, event_add, event_del, fd_file_event_init,
}
use tcpframe.Timers.{register_timer_out_event, unregister_timer_out_event}
use tcpframe.Conn.{ConnFd, new_block}

pub record Server : Type 0 where
  pub base : EventBase
  pub conns : ℕ → Option ConnFd

abbrev pub max_conn_timeout : ℕ
max_conn_timeout = 60000

abbrev pub max_tcp_buf_size : ℕ
max_tcp_buf_size = 4096

-- The connection that a pointer leads to.
unfoldable pub deref : Server → ℕ → Run ConnFd
deref s p = elim (s.conns p) [ none ↦ fault | some c ↦ done c ]

abbrev pub with_conn : Server → ℕ → ConnFd → Server
with_conn s p c = record s { conns = update s.conns p (some c) }

-- MinheapTimeoutEventInit on the heap of the base.
abbrev pub init_timer : EventBase → ℕ → Option TimeoutCallback → ℕ → ℕ → ℕ → EventBase
init_timer b node callback arg pid fd = record b {
  heap = (MinHeap.timeout_event_init b.heap node callback arg pid fd).1;
}

module _ (os : Os) where
  open os use {World, accept, set_nonblock, close, malloc, realloc, getpid}

  -- The end of __DestroyConn: the timer, the cell of the table, and the memory of the connection.
  -- What UnregisterTimerOutEvent returns is not looked at. The free of the timer's node is not
  -- modelled: the node, which has left the heap, stays readable.
  unfoldable pub release_conn : World → Server → ℕ → ConnFd → Run (Server × World)
  release_conn w s p c = do
    (r1, b1) ← unregister_timer_out_event s.base c.timeout_event
    (r2, b2) ← fd_file_event_init b1 c.fd
    done (record { base = b2; conns = update s.conns p none }, w)

  -- __DestroyConn of a connection that is not NULL
  unfoldable pub destroy_conn : World → Server → ℕ → Run (Server × World)
  destroy_conn w s p = do
    c ← deref s p
    let b = record s.base { client_count = s.base.client_count +ℤ negsuc 0 }
    (r, b', w') ← event_del os w b c.fd event_both
    elim r [
      | ret_fail ↦ exits
      | ret_succ ↦ release_conn (close w' c.fd) (record s { base = b' }) p c
    ]

  -- ConnectionTimeoutCallback
  unfoldable pub connection_timeout_callback : World → Server → ℕ → Run (Server × World)
  connection_timeout_callback w s p = if p == null then done (s, w) else destroy_conn w s p

  -- ProcessConnTimeoutCallback, an older variant that is never registered
  unfoldable pub process_conn_timeout_callback : World → Server → ℕ → Run (Server × World)
  process_conn_timeout_callback w s p = if p == null then done (s, w) else destroy_conn w s p

  -- __CreateNewConn, at a pointer and with a timer node that malloc gave. A failure of any malloc
  -- ends the process.
  unfoldable pub create_new_conn : World → Server → ℕ → ℕ → ℕ → List ℕ → ℕ → Run (Server × World)
  create_new_conn w s p node fd ip port =
      let (ok1, w1) = malloc w 1 in
      let (ok2, w2) = malloc w1 max_tcp_buf_size in
      let (ok3, w3) = malloc w2 max_tcp_buf_size in
      let (ok4, w4) = malloc w3 1 in
      let c : ConnFd = record {
        timeout_event = node;
        fd = fd;
        packet_len = 0;
        recv_buf = new_block max_tcp_buf_size;
        send_buf = new_block max_tcp_buf_size;
        recv_total_len = max_tcp_buf_size;
        recv_cur_len = 0;
        send_total_len = max_tcp_buf_size;
        send_cur_len = 0;
        send_packet_len = 0;
        ipaddr = ip;
        port = port;
      } in
      let finish : Run (Server × World) = do
        (r, b) ← fd_file_event_init (init_timer s.base node none null (getpid w4) fd) fd
        done (record { base = b; conns = update s.conns p (some c) }, w4)
      in if not ok1 || not ok2 || not ok3 || not ok4 then exits else finish

  -- ProcessAcceptCallback after accept() gave a descriptor: `p` and `node` are the pointers that
  -- malloc gives for the connection and its timer.
  unfoldable pub accept_client : World → Server → ℕ → ℕ → ℕ → List ℕ → ℕ → Run (Server × World)
  accept_client w s p node fd ip port =
      let (nonblocking, w') = set_nonblock w fd in
      let counted = record s.base { client_count = s.base.client_count +ℤ pos 1 } in
      let go : Run (Server × World) = do
        (s1, w1) ← create_new_conn w' (record s { base = counted }) p node fd ip port
        let b1 = init_timer s1.base node (some connection_timeout) p (getpid w1) fd
        (r2, b2) ← register_timer_out_event (realloc w1) b1 node max_conn_timeout
        (r3, b3, w3) ← event_add os w1 b2 fd event_readable process_recv p
        elim r3 [ ret_fail ↦ exits | ret_succ ↦ done (record s1 { base = b3 }, w3) ]
      in if nonblocking then go else exits

  -- ProcessAcceptCallback. The fuel bounds the calls of accept() that a signal interrupts. In
  -- edge-triggered mode nothing is done.
  unfoldable pub process_accept_callback :
      ℕ → World → Server → ℕ → ℕ → ℕ → List ℕ → ℕ → Run (Server × World)
  process_accept_callback zero w s fd p node ip port = out_of_fuel
  process_accept_callback (suc k) w s fd p node ip port =
      let turn : Run (Server × World) =
        let (result, w') = accept w fd in
        elim result [
          | accepted client ↦ accept_client w' s p node client ip port
          | accept_again ↦ done (s, w')
          | accept_interrupted ↦ process_accept_callback k w' s fd p node ip port
          | accept_failed ↦ exits
        ] in
      if s.base.ep_type == epoll_et_type
      then done (s, w)
      else if s.base.ep_type == epoll_lt_type
      then turn
      else exits
