-- ===== src/Client/Reuse.antt =====
-- ReactorClientInit, ReactorCloseConnection and ReactorResetClient keep the array right.
use tcpframe.Prelude.{
  ℕ, ◌<◌, ◌≡◌, refl, true, inl, inr, ◌||◌, not, leb, none, some, Option-cases, arith, Run, Ret,
  ret_fail,
}
use tcpframe.Prelude.Safe.{Safe, Safe-done, Safe-exits, Safe-if, Safe-bind, Returns-Safe}
use tcpframe.Os.{Os, Mask, CtlOp, ConnectResult, connected, in_progress, connect_failed, no_delay}
use tcpframe.Client.Types.{Worker}
use tcpframe.Client.Events.{
  is_udp, reactor_close_connection, place_client, reactor_client_init, replace_client,
  reactor_close_connection_normal,
}
use tcpframe.Client.Places.{is_open, IsSound, Sound-close}
use tcpframe.Client.Ready.{Armed-update}
use tcpframe.Client.Local.{Local, Local-trans}
use tcpframe.Client.Touch.{reset-Local}
use tcpframe.Client.Open.{Opened, update_other, place_client-Opened}

unchanged : (s : Worker) → IsSound s → Opened s ret_fail s
unchanged s v = record {
  kept = record { sound = v; places = refl; stopped = λ h. h; armed = λ h. h };
  more = λ h. absurd (ground (arith, h));
  others = λ j h. refl;
}

module _ (os : Os)
    (works : (w : os.World) (op : CtlOp) (fd : ℕ) (m : Mask)
      → (os.epoll_ctl w op fd m).0 ≡ true) where
  open os use {World, socket, set_nonblock, connect, setsockopt, close, inet_addr}

  connected-Opened :
      (how : ConnectResult) (s : Worker) (reached refused : Run (Ret × Worker × World))
      → Safe (λ (r, s', w'). Opened s r s') reached
      → Safe (λ (r, s', w'). Opened s r s') refused
      → Safe {A = Ret × Worker × World}
          (λ (r, s', w'). Opened s r s')
          (elim how [ connected ↦ reached | in_progress ↦ reached | connect_failed ↦ refused ])
  connected-Opened connected s reached refused a b = a
  connected-Opened in_progress s reached refused a b = a
  connected-Opened connect_failed s reached refused a b = b

  -- Where epoll_ctl does not fail, ReactorClientInit on a right array ends without a fault: the array is
  -- right, the clients of the places that were taken are as they were, every client is ready for
  -- its next event if all were, and one more is counted as alive where it reports success.
  pub reactor_client_init-Opened :
      (w : World) (s : Worker)
      → IsSound s
      → Safe (λ (r, s', w'). Opened s r s') (reactor_client_init os w s)
  unfolding reactor_client_init
  reactor_client_init-Opened w s v = elim (Option-cases (socket w s.protocol).0) [
    | inl bad ↦ rw (reactor_client_init, bad) (Safe-done _ _ (unchanged s v))
    | inr (fd, e) ↦
        let (made, w1) = socket w s.protocol in
        let (free, w2) = set_nonblock w1 fd in
        let addr : ℕ = elim (inet_addr s.host) [ none ↦ 4294967295 | some a ↦ a ] in
        let (how, w3) = connect w2 fd addr s.port in
        let (swift, w4) = setsockopt w3 fd no_delay in
        let place = λ (w' : World).
          Returns-Safe _ (place_client os w' s fd) (place_client-Opened os works w' s fd v) in
        rw (reactor_client_init, e)
          (Safe-if _ (not free) _ _ (λ h. Safe-done _ _ (unchanged s v))
            λ h.
              connected-Opened how s _ _
                (Safe-if _ (is_udp s.protocol) _ _ (λ u. place w3)
                  λ u. Safe-if _ swift _ _ (λ q. place w4) λ q. Safe-done _ _ (unchanged s v))
                (Safe-done _ _ (unchanged s v)))
  ]

  pub close-Local :
      (w : World) (s : Worker) (i : ℕ)
      → IsSound s
      → i < s.need_client_num
      → is_open (s.clients i) ≡ true
      → Safe (λ (s', w'). Local i s s') (reactor_close_connection os w s i)
  unfolding reactor_close_connection
  close-Local w s i v lt o =
      let c = s.clients i in
      let u = v.each i lt in
      Safe-if _ c.pep_loop _ _
        (λ h. Safe-done _ _ (record {
          kept = record {
            sound =
                Sound-close s.need_client_num s.live_client_num s.clients s.done_requests
                  s.need_request_num i (record c { fd = none }) v lt
                  (record {
                    placed = λ fd e. absurd (ground (arith, e));
                    attached = λ h. absurd (ground (arith, h));
                    sent = u.sent;
                    send_room = u.send_room;
                    recv_room = u.recv_room;
                  })
                  o refl;
            places = refl;
            stopped = λ h. h;
            armed = λ a.
                Armed-update s.need_client_num s.clients i (record c { fd = none }) a
                  λ h. absurd (ground (arith, h));
          };
          others = λ j miss h. update_other s.clients i j (record c { fd = none }) miss;
        }))
        λ h. Safe-exits _

  pub replace-Local :
      (w : World) (s : Worker) (i : ℕ)
      → IsSound s
      → i < s.need_client_num
      → is_open (s.clients i) ≡ true
      → Safe (λ (s', w'). Local i s s') (replace_client os w s i)
  unfolding replace_client
  replace-Local w s i v lt o =
      Safe-bind _ _ (reactor_close_connection os w s i) _ (close-Local w s i v lt o) λ (s1, w1) k.
        Safe-bind _ _ (reactor_client_init os w1 s1) _
          (reactor_client_init-Opened w1 s1 k.kept.sound)
          λ (r, s2, w2) u.
            Safe-done _ _ (
              Local-trans i s s1 s2 k (record { kept = u.kept; others = λ j miss o. u.others j o }))

  -- ReactorCloseConnectionNormal keeps the array right.
  pub normal-Local :
      (w : World) (s : Worker) (i : ℕ)
      → IsSound s
      → i < s.need_client_num
      → is_open (s.clients i) ≡ true
      → Safe (λ (s', w'). Local i s s') (reactor_close_connection_normal os w s i)
  unfolding reactor_close_connection_normal
  normal-Local w s i v lt o =
      Safe-if _ (leb s.need_request_num s.done_requests) _ _
        (λ h. Safe-done _ _ (record {
          kept = record { sound = v; places = refl; stopped = λ h. refl; armed = λ a. a };
          others = λ j miss o. refl;
        }))
        λ h.
          Safe-if _ (s.keepalive || is_udp s.protocol) _ _ (λ k. reset-Local os w s i v lt o)
            λ k. replace-Local w s i v lt o
