-- ===== src/Client/Batch.antt =====
-- The events of one epoll_wait: each is handled on the client that it is for, whatever the others do.
use tcpframe.Prelude.{
  ℕ, ◌+◌, ◌%◌, ◌<◌, ◌≡◌, ◌≢◌, refl, sym, ap, subst, ◌∙◌, true, false, Bool-cases, inl, inr, ltb,
  ◌==◌, ◌||◌, if◌then◌else◌, Option, none, some, List, [], ◌∷◌, arith, done, ◌>>=◌,
}
use tcpframe.Prelude.Int.{ℤ, pos}
use tcpframe.Prelude.Safe.{Safe, Safe-done, Safe-exits, Safe-if, Safe-bind, Safe-weaken}
use tcpframe.Os.{Os, OsLaws, Mask, CtlOp}
use tcpframe.Dispatch.{EpollEvent}
use tcpframe.Client.Types.{ClientFd, Worker, max_fail_count, touch_time}
use tcpframe.Client.Events.{replace_client}
use tcpframe.Client.Loop.{
  Watch, call_proc, handle_event, handle_events, check_timeouts, benchmark_round,
}
use tcpframe.Client.Places.{is_open, IsSound}
use tcpframe.Client.Ready.{Ready, sending, receiving, Armed}
use tcpframe.Client.Open.{Kept}
use tcpframe.Client.Local.{Local, Local-refl, Kept-trans}
use tcpframe.Client.Reuse.{replace-Local}
use tcpframe.Client.Answer.{send_to_server_callback-Local, recv_from_server_callback-Local}
use tcpframe.Client.Rounds.{check_timeouts-Kept}

-- The event is for the descriptor of the client, and reports only what is registered for it.
pub record DueOn (e : EpollEvent) (c : ClientFd) : Type 0 where
  pub taken : c.fd ≡ some e.fd
  pub reads : e.epollin ≡ true → c.mask.readable ≡ true
  pub writes : e.epollout ≡ true → c.mask.writable ≡ true

-- No event of the list is for the descriptor `fd`.
abbrev pub Apart : ℕ → List EpollEvent → Type 0
Apart fd [] = Unit
Apart fd (e ∷ es) = (e.fd ≢ fd) × Apart fd es

-- What epoll_wait may report for the clients `f` in `n` places: at most one event for a descriptor.
abbrev pub Batch : ℕ → (ℕ → ClientFd) → List EpollEvent → Type 0
Batch n f [] = Unit
Batch n f (e ∷ es) = DueOn e (f (e.fd % n)) × Apart e.fd es × Batch n f es

DueOn-is_open : (e : EpollEvent) (c : ClientFd) → DueOn e c → is_open c ≡ true
DueOn-is_open e c due = ap (λ x. elim x [ none ↦ false | some f ↦ true ]) due.taken

-- Two descriptors that are taken stand in different places.
other_place :
    (n : ℕ) (f : ℕ → ClientFd) (e d : EpollEvent)
    → DueOn e (f (e.fd % n))
    → DueOn d (f (d.fd % n))
    → d.fd ≢ e.fd
    → (e.fd % n == d.fd % n) ≡ false
other_place n f e d due due2 apart = elim (Bool-cases (e.fd % n == d.fd % n)) [
  | inr miss ↦ miss
  | inl hit ↦
      let at : e.fd % n ≡ d.fd % n = ground arith in
      absurd (apart (some_inj _ _ (sym due2.taken ∙ ap (λ k. (f k).fd) (sym at) ∙ due.taken)))
]
  where
    some_inj : (a b : ℕ) → ◌≡◌ {A = Option ℕ} (some a) (some b) → a ≡ b
    some_inj a b h = cc

-- The rest of a batch is still due when the first event is handled.
Batch-rest :
    (s s' : Worker) (e : EpollEvent) (es : List EpollEvent)
    → DueOn e (s.clients (e.fd % s.need_client_num))
    → Local (e.fd % s.need_client_num) s s'
    → Apart e.fd es
    → Batch s.need_client_num s.clients es
    → Batch s.need_client_num s'.clients es
Batch-rest s s' e [] due near apart batch = tt
Batch-rest s s' e (d ∷ ds) due near (other, apart) (due2, apart2, batch) =
    let miss = other_place s.need_client_num s.clients e d due due2 other in
    (
      subst (DueOn d) (sym (near.others _ miss (DueOn-is_open d _ due2))) due2,
      apart2,
      Batch-rest s s' e ds due near apart batch,
    )

module _ (os : Os) (laws : OsLaws os)
    (works : (w : os.World) (op : CtlOp) (fd : ℕ) (m : Mask) → (os.epoll_ctl w op fd m).0 ≡ true)
    (epoll_wait : os.World → ℤ → Option (List EpollEvent) × os.World) (fuel : ℕ)
    (enough : (v : os.World) → laws.signals v < fuel) where
  good_event-Local :
      (w : os.World) (s : Worker) (watch : Watch) (e : EpollEvent) (i : ℕ)
      → IsSound s
      → i < s.need_client_num
      → is_open (s.clients i) ≡ true
      → DueOn e (s.clients i)
      → Ready (s.clients i)
      → Safe {A = Worker × Watch × os.World}
          (λ (s', watch', w'). Local i s s')
          ((if e.epollin
              then call_proc os epoll_wait fuel (s.clients i).r_func_proc w s i
              else done (s, w))
            >>= λ (s1, w1).
                (if e.epollout
                  then call_proc os epoll_wait fuel (s1.clients i).w_func_proc w1 s1 i
                  else done (s1, w1))
                >>= λ (s2, w2). done (s2, watch, w2))
  unfolding call_proc
  good_event-Local w s watch e i v lt o due (sending mask func left) =
      let silent : e.epollin ≡ false = elim (Bool-cases e.epollin) [
        | inl h ↦ absurd (ground (arith, due.reads h, ap (λ m. m.readable) mask))
        | inr h ↦ h
      ] in
      rw silent (
        Safe-bind (λ (s', w'). Local i s s') _
          (if e.epollout
            then call_proc os epoll_wait fuel (s.clients i).w_func_proc w s i
            else done (s, w))
          _
          (Safe-if _ e.epollout _ _
            (λ h.
              rw func
                (send_to_server_callback-Local os laws works fuel w s i v lt o left (enough _)))
            λ h. Safe-done _ _ (Local-refl s i v))
          λ (s2, w2) k. Safe-done _ _ k)
  good_event-Local w s watch e i v lt o due (receiving mask func some_byte) =
      let silent : e.epollout ≡ false = elim (Bool-cases e.epollout) [
        | inl h ↦ absurd (ground (arith, due.writes h, ap (λ m. m.writable) mask))
        | inr h ↦ h
      ] in
      rw silent (
        Safe-bind (λ (s', w'). Local i s s') _
          (if e.epollin
            then call_proc os epoll_wait fuel (s.clients i).r_func_proc w s i
            else done (s, w))
          _
          (Safe-if _ e.epollin _ _
            (λ h.
              rw func (recv_from_server_callback-Local os laws works fuel w s i v lt o (enough _)))
            λ h. Safe-done _ _ (Local-refl s i v))
          λ (s2, w2) k. Safe-done _ _ k)

  -- One event that is due.
  handle_event-Local :
      (w : os.World) (s : Worker) (watch : Watch) (e : EpollEvent)
      → IsSound s
      → Armed s.need_client_num s.clients
      → DueOn e (s.clients (e.fd % s.need_client_num))
      → Safe
          (λ (s', watch', w'). Local (e.fd % s.need_client_num) s s')
          (handle_event os epoll_wait fuel w s watch e)
  unfolding handle_event
  handle_event-Local w s watch e v armed due =
      let i = e.fd % s.need_client_num in
      let some_client = v.some_client in
      let lt : i < s.need_client_num = ground (arith, some_client) in
      let o = DueOn-is_open e (s.clients i) due in
      Safe-if _ (s.need_client_num == 0) _ _ (λ h. absurd (ground (arith, h, some_client)))
        λ h.
          Safe-if _ (e.epollerr || e.epollhup) _ _
            (λ bad.
              Safe-if _ (ltb max_fail_count (watch.epoll_fail + 1)) _ _ (λ k. Safe-exits _)
                λ k.
                  Safe-bind _ _ (replace_client os w s i) _ (replace-Local os works w s i v lt o)
                    λ (s1, w1) l. Safe-done _ _ l)
            λ good. good_event-Local w s watch e i v lt o due (armed i lt o)

  handle_events-Kept :
      (w : os.World) (s : Worker) (watch : Watch) (es : List EpollEvent)
      → IsSound s
      → Armed s.need_client_num s.clients
      → Batch s.need_client_num s.clients es
      → Safe (λ (s', watch', w'). Kept s s') (handle_events os epoll_wait fuel w s watch es)
  unfolding handle_events
  handle_events-Kept w s watch [] v armed batch =
      Safe-done _ _ (record { sound = v; places = refl; stopped = λ h. h; armed = λ a. a })
  handle_events-Kept w s watch (e ∷ es) v armed (due, apart, batch) =
      Safe-bind _ _ (handle_event os epoll_wait fuel w s watch e) _
        (handle_event-Local w s watch e v armed due)
        λ (s1, watch1, w1) l.
          let rest =
            subst (λ n. Batch n s1.clients es) (sym l.kept.places)
              (Batch-rest s s1 e es due l apart batch) in
          Safe-weaken _ _ (handle_events os epoll_wait fuel w1 s1 watch1 es)
            (handle_events-Kept w1 s1 watch1 es l.kept.sound (l.kept.armed armed) rest)
            λ (s2, watch2, w2) k. Kept-trans s s1 s2 l.kept k

  -- Where epoll_ctl does not fail, no state has as many interruptions ahead as there is fuel, the array
  -- is right and its clients are ready, and epoll_wait reports at most one event for a descriptor and
  -- only what is registered for a client: a round of ReactorBenchmarkLoop, whatever events it handles
  -- and whether or not it checks for timeouts, ends without a fault (or by exit()), the array is
  -- right and its clients are ready for the next round, and the loop is still stopped if it was.
  pub benchmark_round-Kept :
      (w : os.World) (s : Worker) (watch : Watch) (es : List EpollEvent) (w1 : os.World)
      → IsSound s
      → Armed s.need_client_num s.clients
      → epoll_wait w (pos 2000) ≡ (some es, w1)
      → Batch s.need_client_num s.clients es
      → Safe
          (λ (s', watch', w'). Kept s s' × Armed s'.need_client_num s'.clients)
          (benchmark_round os epoll_wait fuel w s watch)
  unfolding benchmark_round touch_time
  benchmark_round-Kept w s watch es w1 v armed waited batch =
      let (now, v1) = os.gettimeofday w1 in
      let s1 = record s { time = now } in
      rw waited (
        Safe-bind _ _ (handle_events os epoll_wait fuel v1 s1 watch es) _
          (handle_events-Kept v1 s1 watch es v armed batch)
          λ (s2, watch2, v2) k.
            Safe-weaken _ _ (check_timeouts os epoll_wait fuel v2 s2 watch2)
              (check_timeouts-Kept os works epoll_wait fuel v2 s2 watch2 k.sound)
              λ (s3, watch3, v3) k3.
                let all = Kept-trans s1 s2 s3 k k3 in
                (
                  record {
                    sound = all.sound;
                    places = all.places;
                    stopped = all.stopped;
                    armed = all.armed;
                  },
                  all.armed armed,
                ))
