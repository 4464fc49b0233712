-- ===== src/Client/Ending.antt =====
-- The response that was still missing ends the benchmark; events keep the array right.
use tcpframe.Prelude.{
  ℕ, zero, suc, ◌+◌, ◌-◌, ◌%◌, ◌≤◌, ◌<◌, ◌≡◌, refl, sym, ap, ◌∙◌, subst, true, false, Bool-cases,
  inl, inr, ltb, leb, ◌==◌, Option, none, some, List, [], ◌∷◌, arith, Run, done, exits, fault,
  out_of_fuel, ◌≢◌, Returns, Returns-inv,
}
use tcpframe.Prelude.Int.{ℤ, pos}
use tcpframe.Prelude.Safe.{Safe}
use tcpframe.Prelude.Bytes.{length, write_at}
use tcpframe.Os.{Os, OsLaws, Mask, CtlOp, got}
use tcpframe.Dispatch.{EpollEvent}
use tcpframe.Client.Types.{ClientFd, Worker, recv_from_server, word, incr, with_client, touch_time}
use tcpframe.Client.Events.{reactor_close_connection_normal}
use tcpframe.Client.Callbacks.{
  note_recv, read_loop, read_once, count_response, finish_read, recv_from_server_callback,
}
use tcpframe.Client.Loop.{
  Watch, call_proc, handle_event, handle_events, check_timeouts, benchmark_round, benchmark_rounds,
}
use tcpframe.Client.Places.{is_open, IsSound}
use tcpframe.Client.Local.{Local}
use tcpframe.Client.Stamp.{note_recv-Stamped}
use tcpframe.Client.Answer.{recv_from_server_callback-Local}
use tcpframe.Client.Rounds.{check_timeouts-Kept}

module _ (os : Os) where
  count_response-Stops :
      (w : os.World) (s : Worker) (i : ℕ)
      → s.done_requests ≤ s.need_request_num
      → s.need_request_num ≤ s.done_requests + 1
      → s.need_request_num < word
      → Returns (λ (s', w'). s'.stop ≡ 0) (count_response os w s i)
  unfolding count_response reactor_close_connection_normal
  count_response-Stops w s i le last few =
      elim (Bool-cases (ltb s.done_requests s.need_request_num)) [
        | inl more ↦
            let enough : leb s.need_request_num (incr s.done_requests) ≡ true =
              ground (arith, more) in
            rw (more, enough) refl
        | inr full ↦
            let enough : leb s.need_request_num s.done_requests ≡ true = ground (arith, full) in
            rw (full, enough) refl
      ]

  read_once-Got :
      (w : os.World) (d : Option ℕ) (fd n : ℕ) (bs : List ℕ) (w' : os.World)
      → d ≡ some fd
      → os.read w fd n ≡ (got bs, w')
      → read_once os w d n ≡ (got bs, w')
  unfolding read_once
  read_once-Got w d fd n bs w' here e = subst (λ d. read_once os w d n ≡ (got bs, w')) (sym here) e

  read_loop-Got :
      (k : ℕ) (w : os.World) (c : ClientFd) (fd : ℕ) (bs : List ℕ) (w' : os.World)
      → c.fd ≡ some fd
      → os.read w fd (4097 - c.recv_buf_len) ≡ (got bs, w')
      → read_loop os (suc k) w c ≡ done (got bs, w')
  unfolding read_loop
  read_loop-Got k w c fd bs w' here e =
      let once = read_once-Got w c.fd fd (4097 - c.recv_buf_len) bs w' here e in
      rw (read_loop, once) (ap (λ x. done (got bs, x.1)) once)

  finish_read-Stops :
      (w : os.World) (s : Worker) (i : ℕ) (bs : List ℕ)
      → (s.clients i).recv_buf_len + length bs ≤ 4096
      → s.done_requests ≤ s.need_request_num
      → s.need_request_num ≤ s.done_requests + 1
      → s.need_request_num < word
      → Returns (λ (s', w'). s'.stop ≡ 0) (finish_read os w s i bs)
  unfolding finish_read
  finish_read-Stops w s i bs few le last room =
      let c = s.clients i in
      let len = c.recv_buf_len + length bs in
      let c1 = record c { recv_buf = write_at c.recv_buf c.recv_buf_len bs; recv_buf_len = len } in
      let inside : ltb 4097 len ≡ false = ground (arith, few) in
      let fits : ltb 4096 len ≡ false = ground (arith, few) in
      rw (inside, fits) (count_response-Stops w (with_client s i c1) i le last room)

  -- Where the reads of the descriptor give bytes that the buffer has room for, and no more than one
  -- response is missing, RecvFromServerCallback returns and stops the benchmark.
  pub recv_from_server_callback-Stops :
      (fuel : ℕ) (laws : OsLaws os) (w : os.World) (s : Worker) (i fd : ℕ) (bs : List ℕ)
      (w2 : os.World)
      → IsSound s
      → i < s.need_client_num
      → (s.clients i).fd ≡ some fd
      → os.read (note_recv os w s i).1 fd (4097 - (s.clients i).recv_buf_len) ≡ (got bs, w2)
      → (s.clients i).recv_buf_len + length bs ≤ 4096
      → s.need_request_num ≤ s.done_requests + 1
      → 0 < fuel
      → Returns (λ (s', w'). s'.stop ≡ 0) (recv_from_server_callback os fuel w s i)
  unfolding recv_from_server_callback
  recv_from_server_callback-Stops zero laws w s i fd bs w2 v lt here e fits last enough =
      absurd (omega arith)
  recv_from_server_callback-Stops (suc k) laws w s i fd bs w2 v lt here e fits last enough =
      let open_here : is_open (s.clients i) ≡ true =
        ap (λ x. elim x [ none ↦ false | some f ↦ true ]) here in
      let t = note_recv-Stamped s i v lt open_here os w in
      let (s1, w1) = note_recv os w s i in
      let e1 : os.read w1 fd (4097 - (s1.clients i).recv_buf_len) ≡ (got bs, w2) =
        subst (λ n. os.read w1 fd (4097 - n) ≡ (got bs, w2)) (sym t.recved) e in
      let u = t.touched.kept.sound in
      rw (read_loop-Got k w1 (s1.clients i) fd bs w2 (t.fd ∙ here) e1) (
        finish_read-Stops w2 s1 i bs (omega (arith, fits, t.recved)) u.done_le
          (ground (arith, t.counted, t.asked, last)) u.few_requests)

module _ (os : Os) (laws : OsLaws os)
    (works : (w : os.World) (op : CtlOp) (fd : ℕ) (m : Mask) → (os.epoll_ctl w op fd m).0 ≡ true)
    (epoll_wait : os.World → ℤ → Option (List EpollEvent) × os.World) where
  one_event :
      (fuel : ℕ) (w : os.World) (s : Worker) (watch : Watch) (e : EpollEvent) (i : ℕ)
      → e.fd % s.need_client_num ≡ i
      → 0 < s.need_client_num
      → e.epollin ≡ true
      → e.epollout ≡ false
      → e.epollerr ≡ false
      → e.epollhup ≡ false
      → (s.clients i).r_func_proc ≡ some recv_from_server
      → (s' : Worker) (w' : os.World) → recv_from_server_callback os fuel w s i ≡ done (s', w')
      → handle_event os epoll_wait fuel w s watch e ≡ done (s', watch, w')
  unfolding handle_event call_proc
  one_event fuel w s watch e i at_i some_client ein eout eerr ehup proc s' w' back =
      let nonzero : (s.need_client_num == 0) ≡ false = ground (arith, some_client) in
      rw (at_i, nonzero, ein, eout, eerr, ehup, proc, call_proc, back)

  -- A call that commits no fault and does not end the process returns.
  returns : {A : Type 0} (P : A → Type 0) (r : Run A) → Safe P r → r ≢ exits → Returns P r
  returns P (done a) p stays = p.safe
  returns P exits p stays = absurd (stays refl)
  returns P fault p stays = absurd p.safe
  returns P out_of_fuel p stays = absurd p.safe

  -- On a right array, where epoll_ctl does not fail, the wait reports one client, which can be read
  -- and not written and has no error, its callback for reading is RecvFromServerCallback, a read of
  -- its descriptor gives bytes that make the response at most 4096 bytes long, no
  -- more than one response is missing, the rounds of the read are more than the signals that may
  -- interrupt it, and the check of the timeouts after the callback does not end the process: the
  -- loop returns after this round, with the array right and `stop` 0, so that no other round is made.
  pub benchmark_rounds-Ends :
      (k fuel : ℕ) (w w1 : os.World) (s : Worker) (watch : Watch) (e : EpollEvent) (fd : ℕ)
      (bs : List ℕ) (w2 : os.World)
      → IsSound s
      → epoll_wait w (pos 2000) ≡ (some (e ∷ []), w1)
      → e.epollin ≡ true
      → e.epollout ≡ false
      → e.epollerr ≡ false
      → e.epollhup ≡ false
      → (s.clients (e.fd % s.need_client_num)).fd ≡ some fd
      → (s.clients (e.fd % s.need_client_num)).r_func_proc ≡ some recv_from_server
      → s.need_request_num ≤ s.done_requests + 1
      → (s.clients (e.fd % s.need_client_num)).recv_buf_len + length bs ≤ 4096
      → let i = e.fd % s.need_client_num in
        let (s1, v) = touch_time os w1 s in
        let noted = note_recv os v s1 i in
        os.read noted.1 fd (4097 - (s.clients i).recv_buf_len) ≡ (got bs, w2)
        → (let i = e.fd % s.need_client_num in
            let (s1, v) = touch_time os w1 s in laws.signals (note_recv os v s1 i).1 < fuel)
        → (let i = e.fd % s.need_client_num in
            let (s1, v) = touch_time os w1 s in
            (s2 : Worker) (v2 : os.World)
            → recv_from_server_callback os fuel v s1 i ≡ done (s2, v2)
            → check_timeouts os epoll_wait fuel v2 s2 watch ≢ exits)
        → Returns
            (λ (s', w'). IsSound s' × (s'.stop ≡ 0))
            (benchmark_rounds os epoll_wait fuel (suc (suc k)) w s watch)
  unfolding benchmark_rounds benchmark_round handle_events touch_time
  benchmark_rounds-Ends k fuel w w1 s watch e fd bs w2 v waited ein eout eerr ehup here proc last
        fits gives enough stays =
      let i = e.fd % s.need_client_num in
      let s1 = record s { time = (os.gettimeofday w1).0 } in
      let v1 = (os.gettimeofday w1).1 in
      let some_client = v.some_client in
      let lt : i < s.need_client_num = ground (arith, some_client) in
      let open_here : is_open (s.clients i) ≡ true =
        ap (λ x. elim x [ none ↦ false | some f ↦ true ]) here in
      let ((s2, v2), back, stopped) = Returns-inv _ (recv_from_server_callback os fuel v1 s1 i) (
        recv_from_server_callback-Stops os fuel laws v1 s1 i fd bs w2 v lt here gives fits last
          (omega (arith, enough))) in
      let near =
        (subst (Safe (λ (s', w'). Local i s1 s')) back (
          recv_from_server_callback-Local os laws works fuel v1 s1 i v lt open_here enough)).safe in
      let handled =
        one_event fuel v1 s1 watch e i refl some_client ein eout eerr ehup proc s2 v2 back in
      let ((s3, watch3, v3), checked, kept3) =
        Returns-inv _ (check_timeouts os epoll_wait fuel v2 s2 watch) (
          returns _ (check_timeouts os epoll_wait fuel v2 s2 watch)
            (check_timeouts-Kept os works epoll_wait fuel v2 s2 watch near.kept.sound)
            (stays s2 v2 back)) in
      let zero_stop = kept3.stopped stopped in
      elim (Bool-cases (s.stop == 0)) [
        | inl still ↦ rw still (v, ground (arith, still))
        | inr runs ↦ rw (runs, waited, handled, checked, zero_stop) (kept3.sound, zero_stop)
      ]
