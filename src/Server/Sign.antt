-- ===== src/Server/Sign.antt =====
-- No function of the server touches the stop sign of its base.
use tcpframe.Prelude.{
  ℕ, zero, suc, ◌≡◌, Bool, not, ltb, ◌==◌, ◌||◌, none, some, List, Run, done, exits, Ret,
}
use tcpframe.Prelude.Int.{pos, negsuc, ◌+ℤ◌}
use tcpframe.Prelude.Unless.{
  Unless, Unless-bind, Unless-if, Unless-ret, Unless-done, Unless-exits, Unless-fault, Unless-fuel,
  Unless-any,
}
use tcpframe.MinHeap
use tcpframe.MinHeap.{null, connection_timeout}
use tcpframe.Os.{
  Os, Mask, overlaps, is_none, event_both, event_readable, AcceptResult, accepted, accept_again,
  accept_interrupted, accept_failed,
}
use tcpframe.Reactor.{
  EventBase, EventCallback, process_recv, epoll_et_type, epoll_lt_type, event_add, event_del,
  fd_file_event_init,
}
use tcpframe.Timers.{register_timer_out_event, unregister_timer_out_event}
use tcpframe.Timers.Register.{rescheduled}
use tcpframe.Conn.{ConnFd}
use tcpframe.Server.Defs.{
  Server, deref, init_timer, max_conn_timeout, max_tcp_buf_size, release_conn, destroy_conn,
  connection_timeout_callback, create_new_conn, accept_client, process_accept_callback,
}

module _ (n : ℕ) where
  abbrev pub Signed : Server → Type 0
  Signed s = s.base.stop_sign ≡ n

  pub register-sign :
      (realloc : ℕ → Bool) (b : EventBase) (p ms : ℕ)
      → b.stop_sign ≡ n
      → Unless (λ (r, b'). b'.stop_sign ≡ n) (register_timer_out_event realloc b p ms)
  unfolding register_timer_out_event
  register-sign realloc b p ms e = Unless-if _ (p == null) _ _ (Unless-done _ _ e) (
      Unless-bind _ _ (MinHeap.erase (rescheduled b p ms) p) _ (Unless-any _) λ (r1, h1) u1.
        Unless-bind _ _ (MinHeap.push realloc h1 p) _ (Unless-any _)
          λ (r2, h2) u2. Unless-done _ _ e)

  unregister-sign :
      (b : EventBase) (p : ℕ)
      → b.stop_sign ≡ n
      → Unless (λ (r, b'). b'.stop_sign ≡ n) (unregister_timer_out_event b p)
  unfolding unregister_timer_out_event
  unregister-sign b p e =
      Unless-if _ (p == null) _ _ (Unless-done _ _ e)
        (Unless-bind _ _ (MinHeap.erase b.heap p) _ (Unless-any _) λ (r, h) u. Unless-done _ _ e)

  fd_file_event_init-sign :
      (b : EventBase) (fd : ℕ)
      → b.stop_sign ≡ n
      → Unless (λ (r, b'). b'.stop_sign ≡ n) (fd_file_event_init b fd)
  unfolding fd_file_event_init
  fd_file_event_init-sign b fd e =
      Unless-if _ (ltb fd b.fd_event_array_size) _ _ (Unless-done _ _ e) (Unless-fault _)

  module _ (os : Os) where
    open os use {World, malloc, realloc, getpid, set_nonblock, accept}

    -- The base that a call leaves has the sign `n`.
    abbrev pub Ends : Server × os.World → Type 0
    Ends (s, w) = Signed s

    abbrev pub EndsRet : Ret × Server × os.World → Type 0
    EndsRet (r, s, w) = Signed s

    pub event_add-sign :
        (w : os.World) (b : EventBase) (fd : ℕ) (mask : Mask) (callback : EventCallback) (arg : ℕ)
        → b.stop_sign ≡ n
        → Unless (λ (r, b', w'). b'.stop_sign ≡ n) (event_add os w b fd mask callback arg)
    unfolding event_add
    event_add-sign w b fd mask callback arg e =
        Unless-if _ (ltb b.fd_event_array_size fd) _ _ (Unless-done _ _ e) (
          Unless-if _ (fd == b.fd_event_array_size) _ _ (Unless-fault _) (
            Unless-if _ (overlaps (b.fd_events fd).mask mask) _ _ (Unless-done _ _ e)
              (Unless-done _ _ e)))

    pub event_del-sign :
        (w : os.World) (b : EventBase) (fd : ℕ) (mask : Mask)
        → b.stop_sign ≡ n
        → Unless (λ (r, b', w'). b'.stop_sign ≡ n) (event_del os w b fd mask)
    unfolding event_del
    event_del-sign w b fd mask e =
        Unless-if _ (ltb b.fd_event_array_size fd) _ _ (Unless-done _ _ e) (
          Unless-if _ (fd == b.fd_event_array_size) _ _ (Unless-fault _) (
            Unless-if _ (is_none (b.fd_events fd).mask) _ _ (Unless-done _ _ e) (
              Unless-if _ (not (overlaps (b.fd_events fd).mask mask)) _ _ (Unless-done _ _ e)
                (Unless-done _ _ e))))

    release_conn-sign :
        (w : os.World) (s : Server) (p : ℕ) (c : ConnFd)
        → Signed s
        → Unless Ends (release_conn os w s p c)
    unfolding release_conn
    release_conn-sign w s p c e =
        Unless-bind _ _ (unregister_timer_out_event s.base c.timeout_event) _
          (unregister-sign s.base c.timeout_event e)
          λ (r1, b1) e1.
            Unless-bind _ _ (fd_file_event_init b1 c.fd) _ (fd_file_event_init-sign b1 c.fd e1)
              λ (r2, b2) e2. Unless-done _ _ e2

    pub destroy_conn-sign :
        (w : os.World) (s : Server) (p : ℕ) → Signed s → Unless Ends (destroy_conn os w s p)
    unfolding destroy_conn
    destroy_conn-sign w s p e = Unless-bind _ _ (deref s p) _ (Unless-any _) λ c u.
        let b = record s.base { client_count = s.base.client_count +ℤ negsuc 0 } in
        Unless-bind _ _ (event_del os w b c.fd event_both) _ (event_del-sign w b c.fd event_both e)
          λ (r, b', w') e'. Unless-ret _ r exits _ (Unless-exits _) (release_conn-sign _ _ p c e')

    pub timeout-sign :
        (w : os.World) (s : Server) (p : ℕ)
        → Signed s
        → Unless Ends (connection_timeout_callback os w s p)
    unfolding connection_timeout_callback
    timeout-sign w s p e =
        Unless-if _ (p == null) _ _ (Unless-done _ _ e) (destroy_conn-sign w s p e)

    create_new_conn-sign :
        (w : os.World) (s : Server) (p node fd : ℕ) (ip : List ℕ) (port : ℕ)
        → Signed s
        → Unless Ends (create_new_conn os w s p node fd ip port)
    unfolding create_new_conn
    create_new_conn-sign w s p node fd ip port e =
        Unless-if _
          (not (malloc w 1).0
            || not (malloc (malloc w 1).1 max_tcp_buf_size).0
            || not (malloc (malloc (malloc w 1).1 max_tcp_buf_size).1 max_tcp_buf_size).0
            || not
                (malloc (malloc (malloc (malloc w 1).1 max_tcp_buf_size).1 max_tcp_buf_size).1 1).0)
          _ _ (Unless-exits _)
          (Unless-bind _ _
            (fd_file_event_init
              (init_timer s.base node none null
                (getpid
                  (malloc (malloc (malloc (malloc w 1).1 max_tcp_buf_size).1 max_tcp_buf_size).1
                    1).1)
                fd)
              fd)
            _ (fd_file_event_init-sign _ fd e) λ (r, b) e'. Unless-done _ _ e')

    accept_client-sign :
        (w : os.World) (s : Server) (p node fd : ℕ) (ip : List ℕ) (port : ℕ)
        → Signed s
        → Unless Ends (accept_client os w s p node fd ip port)
    unfolding accept_client
    accept_client-sign w s p node fd ip port e =
        let (nonblocking, w') = set_nonblock w fd in
        let counted = record s.base { client_count = s.base.client_count +ℤ pos 1 } in
        Unless-if _ nonblocking _ _
          (Unless-bind _ _ (create_new_conn os w' (record s { base = counted }) p node fd ip port) _
            (create_new_conn-sign w' (record s { base = counted }) p node fd ip port e)
            λ (s1, w1) e1.
              let b1 = init_timer s1.base node (some connection_timeout) p (getpid w1) fd in
              Unless-bind _ _ (register_timer_out_event (realloc w1) b1 node max_conn_timeout) _
                (register-sign (realloc w1) b1 node max_conn_timeout e1)
                λ (r2, b2) e2.
                  Unless-bind _ _ (event_add os w1 b2 fd event_readable process_recv p) _
                    (event_add-sign w1 b2 fd event_readable process_recv p e2)
                    λ (r3, b3, w3) e3.
                      Unless-ret _ r3 exits _ (Unless-exits _) (Unless-done _ _ e3))
          (Unless-exits _)

    accepted-sign :
        (r : AcceptResult) (w : os.World) (s : Server) (p node : ℕ) (ip : List ℕ) (port : ℕ)
        (again : Run (Server × os.World))
        → Signed s
        → Unless Ends again
        → Unless Ends (elim r [
          | accepted client ↦ accept_client os w s p node client ip port
          | accept_again ↦ done (s, w)
          | accept_interrupted ↦ again
          | accept_failed ↦ exits
        ])
    accepted-sign (accepted client) w s p node ip port again e a =
        accept_client-sign w s p node client ip port e
    accepted-sign accept_again w s p node ip port again e a = Unless-done _ _ e
    accepted-sign accept_interrupted w s p node ip port again e a = a
    accepted-sign accept_failed w s p node ip port again e a = Unless-exits _

    pub accept-sign :
        (k : ℕ) (w : os.World) (s : Server) (fd p node : ℕ) (ip : List ℕ) (port : ℕ)
        → Signed s
        → Unless Ends (process_accept_callback os k w s fd p node ip port)
    unfolding process_accept_callback
    accept-sign zero w s fd p node ip port e = Unless-fuel _
    accept-sign (suc k) w s fd p node ip port e =
        let (result, w') = accept w fd in
        Unless-if _ (s.base.ep_type == epoll_et_type) _ _ (Unless-done _ _ e) (
          Unless-if _ (s.base.ep_type == epoll_lt_type) _ _
            (accepted-sign result w' s p node ip port
              (process_accept_callback os k w' s fd p node ip port) e
              (accept-sign k w' s fd p node ip port e))
            (Unless-exits _))
