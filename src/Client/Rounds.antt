-- ===== src/Client/Rounds.antt =====
-- InitSingleReactor, ClearTimeoutConnection and one round of ReactorBenchmarkLoop.
use tcpframe.Prelude.{
  ℕ, zero, suc, ◌+◌, ◌-◌, ◌%◌, ◌≤◌, ◌<◌, ◌≡◌, refl, sym, ◌∙◌, subst, true, inl, inr, ltb, leb, not,
  if◌then◌else◌, Option, Option-cases, List, arith, done, exits, Ret, ret_succ, ret_fail,
}
use tcpframe.Prelude.Int.{ℤ}
use tcpframe.Prelude.Safe.{Safe, Safe-done, Safe-exits, Safe-if, Safe-bind, Safe-weaken}
use tcpframe.Os.{Os, Mask, CtlOp}
use tcpframe.Dispatch.{EpollEvent}
use tcpframe.Time.{Timeval}
use tcpframe.Client.Types.{ClientFd, Worker, word, incr, free_place, get_usec_time, get_msec_time}
use tcpframe.Client.Events.{reactor_client_init, reactor_reset_client}
use tcpframe.Client.Loop.{
  Watch, supply_clients, init_single_reactor, is_timeout, clear_from, clear_timeout_connection,
  check_timeouts,
}
use tcpframe.Client.Places.{is_open, IsSound, occupied-le, occupied_none}
use tcpframe.Client.Ready.{Armed}
use tcpframe.Client.Open.{Kept, Opened}
use tcpframe.Client.Local.{Kept-trans}
use tcpframe.Client.Touch.{reset-Local}
use tcpframe.Client.Stamp.{get_usec_time-keeps, get_msec_time-keeps}
use tcpframe.Client.Reuse.{reactor_client_init-Opened}

-- The array is right and every place is taken.
pub record Full (s s' : Worker) : Type 0 where
  pub kept : Kept s s'
  pub full : s'.live_client_num ≡ s.need_client_num

Kept-refl : (s : Worker) → IsSound s → Kept s s
Kept-refl s v = record { sound = v; places = refl; stopped = λ h. h; armed = λ a. a }

-- Never more clients than places.
Full-already : (s : Worker) → IsSound s → s.need_client_num ≤ s.live_client_num → Full s s
Full-already s v le = record {
  kept = Kept-refl s v;
  full = omega (arith, v.live_eq, occupied-le s.need_client_num s.clients, le);
}

timeout-is_open : (os : Os) (now : ℕ) (c : ClientFd) → is_timeout os now c ≡ true → is_open c ≡ true
unfolding is_timeout
timeout-is_open os now c h = elim (Option-cases c.fd) [
  | inl e ↦ absurd (ground (arith, h, e))
  | inr (fd, e) ↦ rw e refl
]

module _ (os : Os)
    (works : (w : os.World) (op : CtlOp) (fd : ℕ) (m : Mask)
      → (os.epoll_ctl w op fd m).0 ≡ true) where
  supply_clients-Full :
      (k : ℕ) (w : os.World) (s : Worker)
      → IsSound s
      → s.need_client_num ≤ s.live_client_num + k
      → Safe (λ (s', w'). Full s s') (supply_clients os k w s)
  unfolding supply_clients
  supply_clients-Full zero w s v enough =
      Safe-if _ (ltb s.live_client_num s.need_client_num) _ _
        (λ h. absurd (ground (arith, enough, h)))
        λ h. Safe-done _ _ (Full-already s v (omega (arith, enough)))
  supply_clients-Full (suc k) w s v enough =
      Safe-if _ (ltb s.live_client_num s.need_client_num) _ _
        (λ h.
          Safe-bind _ _ (reactor_client_init os w s) _ (reactor_client_init-Opened os works w s v)
            λ (r, s', w') o. next r s' w' o (supply_clients-Full k w' s'))
        λ h. Safe-done _ _ (Full-already s v (ground (arith, h)))
    where
      next :
          (r : Ret) (s' : Worker) (w' : os.World)
          → Opened s r s'
          → (IsSound s'
              → s'.need_client_num ≤ s'.live_client_num + k
              → Safe (λ (s'', w''). Full s' s'') (supply_clients os k w' s'))
          → Safe {A = Worker × os.World}
              (λ (s'', w''). Full s s'')
              (elim r [ ret_fail ↦ exits | ret_succ ↦ supply_clients os k w' s' ])
      next ret_fail s' w' o ih = Safe-exits _
      next ret_succ s' w' o ih =
          let more = o.more refl in
          Safe-weaken _ _ (supply_clients os k w' s')
            (ih o.kept.sound (omega (arith, more, o.kept.places, enough)))
            λ (s'', w'') f. record {
              kept = Kept-trans s s' s'' o.kept f.kept;
              full = f.full ∙ o.kept.places;
            }

  -- Where epoll_ctl does not fail, InitSingleReactor on a worker that asks for at least one client,
  -- and whose numbers fit an unsigned int, ends; where it returns success, every place of the array
  -- holds a client whose descriptor belongs there, and the number of live clients is that of the
  -- clients asked for, and each is ready for its next event.
  pub init_single_reactor-Full :
      (w : os.World) (s : Worker)
      → 0 < s.need_client_num
      → s.need_client_num < word
      → s.need_request_num < word
      → s.live_client_num ≡ 0
      → s.done_requests ≡ 0
      → Safe
          (λ (r, s', w').
            r ≡ ret_succ
            → IsSound s'
              × (s'.live_client_num ≡ s.need_client_num)
              × Armed s'.need_client_num s'.clients)
          (init_single_reactor os w s)
  unfolding init_single_reactor
  init_single_reactor-Full w s some_client few few_requests live0 done0 =
      let (clients_ok, w1) = os.malloc w s.need_client_num in
      let (latency_ok, w2) = os.malloc w1 s.need_request_num in
      let (loop_ok, w3) = os.malloc w2 1 in
      let (made, w4) = os.epoll_create w3 in
      let (events_ok, w5) = os.malloc w4 (s.need_client_num + 1) in
      let fresh = record s { clients = λ _. free_place; latency = λ _. 0; stop = 1 } in
      let sound : IsSound fresh = record {
        some_client = some_client;
        few = few;
        each = λ i lt. record {
          placed = λ fd e. absurd (ground (arith, e));
          attached = λ o. absurd (ground (arith, o));
          sent = omega arith;
          send_room = omega arith;
          recv_room = omega arith;
        };
        live_eq = live0 ∙ sym (occupied_none s.need_client_num (λ _. free_place) λ i lt. refl);
        done_le = omega (arith, done0);
        few_requests = few_requests;
      } in
      let filled =
        Safe-bind _ _ (supply_clients os s.need_client_num w5 fresh)
          (λ (s', w'). done (ret_succ, s', w'))
          (supply_clients-Full s.need_client_num w5 fresh sound (omega arith))
          λ (s', w') f.
            Safe-done
              (λ (r, s', w').
                r ≡ ret_succ
                → IsSound s'
                  × (s'.live_client_num ≡ s.need_client_num)
                  × Armed s'.need_client_num s'.clients)
              _ λ h. (f.kept.sound, f.full, f.kept.armed λ i lt o. absurd (ground (arith, o))) in
      Safe-if _ (not clients_ok) _ _ (λ h. failed w1)
        λ h.
          Safe-if _ (not latency_ok) _ _ (λ h. failed w2)
            λ h.
              Safe-if _ (leb 2147483647 s.need_client_num) _ _ (λ h. failed w2)
                λ h.
                  Safe-if _ (not loop_ok) _ _ (λ h. failed w3)
                    λ h. elim (Option-cases made) [
                      | inl e ↦ rw e (failed w4)
                      | inr (epfd, e) ↦
                          rw e (Safe-if _ (not events_ok) _ _ (λ h. failed w5) λ h. filled)
                    ]
    where
      failed :
          (v : os.World)
          → Safe {A = Ret × Worker × os.World}
              (λ (r, s', w').
                r ≡ ret_succ
                → IsSound s'
                  × (s'.live_client_num ≡ s.need_client_num)
                  × Armed s'.need_client_num s'.clients)
              (done (ret_fail, s, v))
      failed v = Safe-done _ _ λ h. absurd (ground (arith, h))

  clear_from-Kept :
      (k i : ℕ) (w : os.World) (s : Worker) (now : ℕ)
      → IsSound s
      → i + k ≤ s.need_client_num
      → Safe (λ (s', w'). Kept s s') (clear_from os k i w s now)
  unfolding clear_from
  clear_from-Kept zero i w s now v le = Safe-done _ _ (Kept-refl s v)
  clear_from-Kept (suc k) i w s now v le =
      Safe-bind (λ (s', w'). Kept s s') _
        (if is_timeout os now (s.clients i)
          then reactor_reset_client os w
              (record s { timeout_client_num = incr s.timeout_client_num }) i
          else done (s, w))
        _
        (Safe-if _ (is_timeout os now (s.clients i)) _ _
          (λ h.
            let s1 = record s { timeout_client_num = incr s.timeout_client_num } in
            Safe-weaken _ _ (reactor_reset_client os w s1 i)
              (reset-Local os w s1 i v (omega (arith, le)) (timeout-is_open os now (s.clients i) h))
              λ (s', w') t. record {
                sound = t.kept.sound;
                places = t.kept.places;
                stopped = t.kept.stopped;
                armed = t.kept.armed;
              })
          λ h. Safe-done _ _ (Kept-refl s v))
        λ (s', w') p.
          Safe-weaken _ _ (clear_from os k (i + 1) w' s' now)
            (clear_from-Kept k (i + 1) w' s' now p.sound (omega (arith, le, p.places)))
            λ (s'', w'') q. Kept-trans s s' s'' p q

  -- ClearTimeoutConnection on a right array ends without a fault and keeps it right.
  pub clear_timeout_connection-Kept :
      (w : os.World) (s : Worker) (now : ℕ)
      → IsSound s
      → Safe (λ (s', w'). Kept s s') (clear_timeout_connection os w s now)
  unfolding clear_timeout_connection
  clear_timeout_connection-Kept w s now v =
      clear_from-Kept s.need_client_num 0 w s now v (omega arith)

  retimed : (s s' : Worker) → IsSound s → (t : Timeval) × (s' ≡ record s { time = t }) → Kept s s'
  retimed s s' v (t, e) =
      subst (λ x. Kept s x) (sym e)
        (record { sound = v; places = refl; stopped = λ h. h; armed = λ a. a })

  pub check_timeouts-Kept :
      (epoll_wait : os.World → ℤ → Option (List EpollEvent) × os.World) (fuel : ℕ) (w : os.World)
      (s : Worker) (watch : Watch)
      → IsSound s
      → Safe (λ (s', watch', w'). Kept s s') (check_timeouts os epoll_wait fuel w s watch)
  unfolding check_timeouts
  check_timeouts-Kept epoll_wait fuel w s watch v =
      let (now, s1, w1) = get_usec_time os w s in
      let (current, s2, w2) = get_usec_time os w1 s1 in
      let k1 = retimed s s1 v (get_usec_time-keeps os w s) in
      let k2 = retimed s1 s2 k1.sound (get_usec_time-keeps os w1 s1) in
      Safe-if _
        (ltb 200000 ((now + (18446744073709551616 - watch.last_check)) % 18446744073709551616)) _ _
        (λ h.
          Safe-bind _ _ (clear_timeout_connection os w2 s2 current) _
            (clear_timeout_connection-Kept w2 s2 current k2.sound)
            λ (s3, w3) k3.
              Safe-bind _ _ (supply_clients os s3.need_client_num w3 s3) _
                (supply_clients-Full s3.need_client_num w3 s3 k3.sound (omega arith))
                λ (s4, w4) f.
                  let (shown, s5, w5) = get_msec_time os w4 s4 in
                  let k5 = retimed s4 s5 f.kept.sound (get_msec_time-keeps os w4 s4) in
                  let k6 = retimed s5 _ k5.sound (get_usec_time-keeps os w5 s5) in
                  let first = Kept-trans s s1 s2 k1 k2 in
                  let cleared = Kept-trans s s2 s3 first k3 in
                  let supplied = Kept-trans s s3 s4 cleared f.kept in
                  Safe-done _ _ (Kept-trans s s5 _ (Kept-trans s s4 s5 supplied k5) k6))
        λ h. Safe-done _ _ k1
