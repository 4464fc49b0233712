-- ===== src/Dispatch/Loop.antt =====
-- The stop sign, and the rounds of the dispatch loop.
use tcpframe.Prelude.{
  ℕ, zero, suc, ◌≡◌, refl, subst, ◌≢◌, Bool, true, ◌&&◌, ltb, ◌==◌, arith, List, [], ◌∷◌, Option,
  none, some, Run, done, ◌>>=◌,
}
use tcpframe.Prelude.Int.{ℤ}
use tcpframe.Prelude.Unless.{
  Unless, Unless-bind, Unless-if, Unless-done, Unless-fault, Unless-fuel, Unless-any,
}
use tcpframe.Time.{TimeDiff, timercmp_gt, timercmp_le}
use tcpframe.MinHeap
use tcpframe.MinHeap.{null, TimeoutCallback, connection_timeout}
use tcpframe.Os.{Os}
use tcpframe.Reactor.{
  EventBase, EventCallback, process_accept, process_recv, process_send, event_base_stop,
}
use tcpframe.Timers.{refresh, get_epollwait_timeout_value, epollwait_timeout}
use tcpframe.Server.{Server, connection_timeout_callback}
use tcpframe.Server.Sign.{Signed, Ends, timeout-sign, accept-sign}
use tcpframe.Server.SignIo.{recv-sign, send-sign}
use tcpframe.Dispatch.{
  Client, EpollEvent, call, call_if, dispatch_event, dispatch_events, process_timeout_event,
  dispatch_round, dispatch_loop,
}

-- The server after __EventBaseStop.
abbrev pub stopped : Server → Server
stopped s = record s { base = event_base_stop s.base }

module _ (n : ℕ) (os : Os) (client : os.World → Client)
    (epoll_wait : os.World → ℤ → Option (List EpollEvent) × os.World) (fuel : ℕ) where
  open os use {World, gettimeofday}

  call-sign :
      (f : EventCallback) (w : World) (s : Server) (fd arg : ℕ)
      → Signed n s
      → Unless (Ends n os) (call os client epoll_wait fuel f w s fd arg)
  unfolding call
  call-sign process_accept w s fd arg e =
      let c = client w in accept-sign n os fuel w s fd c.conn c.node c.ip c.port e
  call-sign process_recv w s fd arg e = recv-sign n os fuel w s arg e
  call-sign process_send w s fd arg e = send-sign n os fuel w s arg e

  call_if-sign :
      (wanted : Bool) (callback : Option EventCallback) (w : World) (s : Server) (fd arg : ℕ)
      → Signed n s
      → Unless (Ends n os) (call_if os client epoll_wait fuel wanted callback w s fd arg)
  unfolding call_if
  call_if-sign wanted none w s fd arg e =
      Unless-if _ wanted _ _ (Unless-fault _) (Unless-done _ _ e)
  call_if-sign wanted (some f) w s fd arg e =
      Unless-if _ wanted _ _ (call-sign f w s fd arg e) (Unless-done _ _ e)

  event-sign :
      (w : World) (s : Server) (ev : EpollEvent)
      → Signed n s
      → Unless (Ends n os) (dispatch_event os client epoll_wait fuel w s ev)
  unfolding dispatch_event
  event-sign w s ev e =
      let node = s.base.fd_events ev.fd in
      Unless-if _ (ltb ev.fd s.base.fd_event_array_size) _ _
        (Unless-bind _ _
          (call_if os client epoll_wait fuel (node.mask.readable && ev.epollin) node.callback_read w
            s ev.fd node.arg)
          _
          (call_if-sign (node.mask.readable && ev.epollin) node.callback_read w s ev.fd node.arg e)
          λ (s1, w1) e1. call_if-sign _ (s1.base.fd_events ev.fd).callback_write w1 s1 ev.fd _ e1)
        (Unless-fault _)

  events-sign :
      (w : World) (s : Server) (evs : List EpollEvent)
      → Signed n s
      → Unless (Ends n os) (dispatch_events os client epoll_wait fuel w s evs)
  unfolding dispatch_events
  events-sign w s [] e = Unless-done _ _ e
  events-sign w s (ev ∷ evs) e =
      Unless-bind _ _ (dispatch_event os client epoll_wait fuel w s ev) _ (event-sign w s ev e)
        λ (s', w') e'. events-sign w' s' evs e'

  -- The callback of a timer.
  expired-sign :
      (callback : Option TimeoutCallback) (w : World) (s : Server) (arg : ℕ)
      → Signed n s
      → Unless (Ends n os) (elim callback [
        | none ↦ done (s, w)
        | some connection_timeout ↦ connection_timeout_callback os w s arg
      ])
  expired-sign none w s arg e = Unless-done _ _ e
  expired-sign (some connection_timeout) w s arg e = timeout-sign n os w s arg e

  timeouts-sign :
      (k : ℕ) (w : World) (s : Server)
      → Signed n s
      → Unless (Ends n os) (process_timeout_event os client epoll_wait fuel k w s)
  unfolding process_timeout_event
  timeouts-sign zero w s e = Unless-fuel _
  timeouts-sign (suc k) w s e =
      Unless-bind _ _ (MinHeap.get_top_element s.base.heap) _ (Unless-any _) λ top u.
        let node = s.base.heap.nodes top in
        Unless-if _ (top == null) _ _ (Unless-done _ _ e) (
          Unless-if _ (timercmp_gt node.timeout s.base.time_cache) _ _ (Unless-done _ _ e) (
            Unless-bind _ _ (MinHeap.pop s.base.heap) _ (Unless-any _) λ (p, h) v.
              let s1 = record s { base = record s.base { heap = h } } in
              Unless-bind _ _
                (elim node.callback [
                  | none ↦ done (s1, w)
                  | some connection_timeout ↦ connection_timeout_callback os w s1 node.callback_arg
                ])
                _ (expired-sign node.callback w s1 node.callback_arg e)
                λ (s2, w2) e2. timeouts-sign k w2 s2 e2))

  refresh-sign : (w : World) (b : EventBase) → b.stop_sign ≡ n → (refresh os w b).0.stop_sign ≡ n
  unfolding refresh
  refresh-sign w b e = ground (arith, e)

  wait-sign :
      (w : World) (b : EventBase) (save : TimeDiff)
      → b.stop_sign ≡ n
      → Unless (λ (r, d, b', w'). b'.stop_sign ≡ n) (get_epollwait_timeout_value os w b save)
  unfolding get_epollwait_timeout_value
  wait-sign w b save e = Unless-bind _ _ (MinHeap.get_top_element b.heap) _ (Unless-any _) λ top u.
      Unless-if _ (top == null) _ _ (Unless-done _ _ e) (
        Unless-if _ (timercmp_le (refresh os w b).0.time_cache (b.heap.nodes top).timeout) _ _
          (Unless-done _ _ (refresh-sign w b e)) (Unless-done _ _ (refresh-sign w b e)))

  -- What is done with what epoll_wait gives.
  served-sign :
      (events : Option (List EpollEvent)) (w : World) (s : Server) (save : TimeDiff)
      → Signed n s
      → Unless {A = Server × TimeDiff × World}
          (λ (s', d, w'). Signed n s')
          (elim events [
            | none ↦ done (s, save, w)
            | some es ↦ dispatch_events os client epoll_wait fuel w s es >>= λ (s2, w4).
                process_timeout_event os client epoll_wait fuel (suc s2.base.heap.node_used) w4 s2
                >>= λ (s3, w5). done (s3, save, w5)
          ])
  served-sign none w s save e = Unless-done _ _ e
  served-sign (some es) w s save e =
      Unless-bind _ _ (dispatch_events os client epoll_wait fuel w s es) _ (events-sign w s es e)
        λ (s2, w4) e2.
          Unless-bind _ _
            (process_timeout_event os client epoll_wait fuel (suc s2.base.heap.node_used) w4 s2) _
            (timeouts-sign (suc s2.base.heap.node_used) w4 s2 e2) λ (s3, w5) e3. Unless-done _ _ e3

  round-sign :
      (w : World) (s : Server) (save : TimeDiff)
      → Signed n s
      → Unless (λ (s', d, w'). Signed n s') (dispatch_round os client epoll_wait fuel w s save)
  unfolding dispatch_round
  round-sign w s save e =
      Unless-bind _ _ (get_epollwait_timeout_value os w s.base save) _ (wait-sign w s.base save e)
        λ (r, save', b, w1) e1.
          let (events, w2) = epoll_wait w1 (epollwait_timeout r save') in
          let (now, w3) = gettimeofday w2 in
          served-sign events w3 (record s { base = record b { time_cache = now } }) save' e1

module _ (os : Os) (client : os.World → Client)
    (epoll_wait : os.World → ℤ → Option (List EpollEvent) × os.World) (fuel : ℕ) where
  pub endless :
      (k : ℕ) (w : os.World) (s : Server) (save : TimeDiff)
      → Signed 0 s
      → Unless (λ _. ⊥) (dispatch_loop os client epoll_wait fuel k w s save)
  unfolding dispatch_loop
  endless zero w s save e = Unless-fuel _
  endless (suc k) w s save e =
      let going : (s.base.stop_sign == 0) ≡ true = ground (arith, e) in
      rw going (
        Unless-bind _ _ (dispatch_round os client epoll_wait fuel w s save) _
          (round-sign 0 os client epoll_wait fuel w s save e)
          λ (s', save', w') e'. endless k w' s' save' e')

  impossible : {A : Type 0} (r : Run A) → Unless (λ _. ⊥) r → (a : A) → r ≢ done a
  impossible r u a e = (subst (λ x. Unless (λ _. ⊥) x) e u).holds

  -- However many rounds it goes through, and whatever comes in, the loop of a base whose stop sign
  -- is 0, as it is created, never returns, and it does not return after __EventBaseStop either.
  pub dispatch_loop-never_returns :
      (k : ℕ) (w : os.World) (s : Server) (save : TimeDiff) (r : Server × os.World)
      → s.base.stop_sign ≡ 0
      → (dispatch_loop os client epoll_wait fuel k w s save ≢ done r)
        × (dispatch_loop os client epoll_wait fuel k w (stopped s) save ≢ done r)
  unfolding event_base_stop
  dispatch_loop-never_returns k w s save r e =
      (impossible _ (endless k w s save e) r, impossible _ (endless k w (stopped s) save refl) r)
