-- ===== src/Client/Stamp.antt =====
-- The times that the callbacks note leave the array right.
use tcpframe.Prelude.{ℕ, ◌<◌, ◌≡◌, refl, sym, ap, ◌∙◌, subst, true, Bool-cases, inl, inr, ◌==◌}
use tcpframe.Prelude.Int.{ℤ, pos, negsuc, sub_ℕ}
use tcpframe.Time.{Timeval}
use tcpframe.Os.{Os}
use tcpframe.Client.Types.{
  ClientFd, Worker, with_client, get_usec_time, get_msec_time, ensure_time, touch_time,
}
use tcpframe.Client.Callbacks.{note_send, note_recv, note_touch, note_latency}
use tcpframe.Client.Places.{is_open, IsSound}
use tcpframe.Client.Open.{update_self}
use tcpframe.Client.Ready.{Ready, Ready-keep}
use tcpframe.Client.Local.{
  Local-refl, Local-trans, Partly-trans, Touched, Local, Touched-Local, Same, lengths-Same,
  with_client-Touched,
}

-- The array is right, the client is still there, and its lengths are those of before.
pub record Stamped (s : Worker) (i : ℕ) (s' : Worker) : Type 0 where
  pub touched : Touched s i s'
  pub near : Local i s s'
  pub sended : (s'.clients i).sended_len ≡ (s.clients i).sended_len
  pub fd : (s'.clients i).fd ≡ (s.clients i).fd
  pub counted : s'.done_requests ≡ s.done_requests
  pub asked : s'.need_request_num ≡ s.need_request_num
  pub recved : (s'.clients i).recv_buf_len ≡ (s.clients i).recv_buf_len
  pub to_send : (s'.clients i).send_buf_len ≡ (s.clients i).send_buf_len

module _ (os : Os) where
  -- Reading the clock changes the cached time only.
  pub get_usec_time-keeps :
      (w : os.World) (s : Worker)
      → (t : Timeval) × ((get_usec_time os w s).1 ≡ record s { time = t })
  unfolding get_usec_time ensure_time touch_time
  get_usec_time-keeps w s = elim (Bool-cases (s.time.sec == 0)) [
    | inl stale ↦ ((os.gettimeofday w).0, rw stale refl)
    | inr fresh ↦ (s.time, rw fresh refl)
  ]

  pub get_msec_time-keeps :
      (w : os.World) (s : Worker)
      → (t : Timeval) × ((get_msec_time os w s).1 ≡ record s { time = t })
  unfolding get_msec_time ensure_time touch_time
  get_msec_time-keeps w s = elim (Bool-cases (s.time.sec == 0)) [
    | inl stale ↦ ((os.gettimeofday w).0, rw stale refl)
    | inr fresh ↦ (s.time, rw fresh refl)
  ]

module _ (s : Worker) (i : ℕ) (v : IsSound s) (lt : i < s.need_client_num)
    (o : is_open (s.clients i) ≡ true) where
  -- A client that differs in its times alone.
  stamp :
      (t : Timeval) (c : ClientFd)
      → Same (s.clients i) c
      → c.sended_len ≡ (s.clients i).sended_len
      → c.send_buf_len ≡ (s.clients i).send_buf_len
      → c.recv_buf_len ≡ (s.clients i).recv_buf_len
      → (Ready (s.clients i) → Ready c)
      → Stamped s i (with_client (record s { time = t }) i c)
  stamp t c same a b d ready =
      let u = with_client-Touched (record s { time = t }) i c v lt o same in
      let self = update_self s.clients i c in
      let moved : Touched s i (with_client (record s { time = t }) i c) = record {
        kept = record { sound = u.kept.sound; places = refl; stopped = λ h. h };
        taken = u.taken;
        others = λ j miss. u.others j miss;
      } in
      record {
        touched = moved;
        near =
            Touched-Local s i (with_client (record s { time = t }) i c) moved
              λ a. subst Ready (sym self) (ready (a i lt o));
        sended = ap (λ x. x.sended_len) self ∙ a;
        fd = ap (λ x. x.fd) self ∙ same.fd;
        counted = refl;
        asked = refl;
        recved = ap (λ x. x.recv_buf_len) self ∙ d;
        to_send = ap (λ x. x.send_buf_len) self ∙ b;
      }

  stamp_times :
      (t : Timeval) (start touch : ℕ) (latency : ℤ)
      → Stamped s i (
          with_client
            (record s { time = t })
            i
            (record (s.clients i) { start_time = start; latency = latency; touch_time = touch }))
  stamp_times t start touch latency =
      let c = record (s.clients i) { start_time = start; latency = latency; touch_time = touch } in
      stamp t c
        (lengths-Same s.need_client_num i (s.clients i) c (v.each i lt) refl refl refl refl refl)
        refl refl refl (λ r. Ready-keep (s.clients i) c r refl refl refl refl refl)

  -- Changes that depend on the time that the clock gives.
  clock-Stamped :
      (os : Os) (w : os.World) (start touch : ℕ → ClientFd → ℕ) (latency : ℕ → ClientFd → ℤ)
      → (let (now, s1, w1) = get_usec_time os w s in
          let c = s1.clients i in
          Stamped s i (
            with_client s1 i (record c {
              start_time = start now c;
              latency = latency now c;
              touch_time = touch now c;
            })))
  clock-Stamped os w start touch latency =
      let (t, e) = get_usec_time-keeps os w s in
      let now = (get_usec_time os w s).0 in
      let c = s.clients i in
      subst
        (λ x. Stamped s i (
          with_client x i (record (x.clients i) {
            start_time = start now (x.clients i);
            latency = latency now (x.clients i);
            touch_time = touch now (x.clients i);
          })))
        (sym e) (stamp_times t (start now c) (touch now c) (latency now c))

  Stamped-refl : Stamped s i s
  Stamped-refl = record {
    touched = record {
      kept = record { sound = v; places = refl; stopped = λ h. h };
      taken = o;
      others = λ j miss. refl;
    };
    near = Local-refl s i v;
    sended = refl;
    fd = refl;
    counted = refl;
    asked = refl;
    recved = refl;
    to_send = refl;
  }

  note_touch-Stamped : (os : Os) (w : os.World) → Stamped s i (note_touch os w s i).0
  unfolding note_touch
  note_touch-Stamped os w =
      clock-Stamped os w (λ now c. c.start_time) (λ now c. now) (λ now c. c.latency)

  note_latency-Stamped : (os : Os) (w : os.World) → Stamped s i (note_latency os w s i).0
  unfolding note_latency
  note_latency-Stamped os w = by_sign os w (s.clients i).latency (
      clock-Stamped os w (λ now c. c.start_time) (λ now c. c.touch_time)
        λ now c. sub_ℕ now c.start_time)
    where
      by_sign :
          (os : Os) (w : os.World) (l : ℤ)
          → (let (now, s1, w1) = get_usec_time os w s in
              let c = record (s1.clients i) { latency = sub_ℕ now (s1.clients i).start_time } in
              Stamped s i (with_client s1 i c))
          → (let (now, s1, w1) = get_usec_time os w s in
              let c = record (s1.clients i) { latency = sub_ℕ now (s1.clients i).start_time } in
              let r : Worker × os.World = elim l [
                | pos n ↦ (s, w)
                | negsuc n ↦ (with_client s1 i c, w1)
              ] in
              Stamped s i r.0)
      by_sign os w (pos n) p = Stamped-refl
      by_sign os w (negsuc n) p = p

Stamped-trans :
    (s : Worker) (i : ℕ) (s1 s2 : Worker) → Stamped s i s1 → Stamped s1 i s2 → Stamped s i s2
Stamped-trans s i s1 s2 p q = record {
  touched = record {
    kept = Partly-trans s s1 s2 p.touched.kept q.touched.kept;
    taken = q.touched.taken;
    others = λ j miss. q.touched.others j miss ∙ p.touched.others j miss;
  };
  near = Local-trans i s s1 s2 p.near q.near;
  sended = q.sended ∙ p.sended;
  fd = q.fd ∙ p.fd;
  counted = q.counted ∙ p.counted;
  asked = q.asked ∙ p.asked;
  recved = q.recved ∙ p.recved;
  to_send = q.to_send ∙ p.to_send;
}

-- One change of the times after another.
after :
    (s : Worker) (i : ℕ) (s1 s2 : Worker)
    → i < s.need_client_num
    → Stamped s i s1
    → (IsSound s1 → i < s1.need_client_num → is_open (s1.clients i) ≡ true → Stamped s1 i s2)
    → Stamped s i s2
after s i s1 s2 lt p next =
    Stamped-trans s i s1 s2 p (
      next p.touched.kept.sound (subst (λ n. i < n) (sym p.touched.kept.places) lt) p.touched.taken)

module _ (s : Worker) (i : ℕ) (v : IsSound s) (lt : i < s.need_client_num)
    (o : is_open (s.clients i) ≡ true) (os : Os) (w : os.World) where
  pub note_send-Stamped : Stamped s i (note_send os w s i).0
  unfolding note_send
  note_send-Stamped =
      let (now, s1, w1) = get_usec_time os w s in
      let c = record (s1.clients i) { start_time = now; latency = negsuc 0 } in
      let s2 = with_client s1 i c in
      elim (Bool-cases ((s.clients i).sended_len == 0)) [
        | inl first ↦ rw first (
            after s i s2 (note_touch os w1 s2 i).0 lt
              (clock-Stamped s i v lt o os w (λ now c. now) (λ now c. c.touch_time)
                λ now c. negsuc 0)
              λ v2 lt2 o2. note_touch-Stamped s2 i v2 lt2 o2 os w1)
        | inr more ↦ rw more (note_touch-Stamped s i v lt o os w)
      ]

  pub note_recv-Stamped : Stamped s i (note_recv os w s i).0
  unfolding note_recv
  note_recv-Stamped =
      let (s1, w1) = note_touch os w s i in
      after s i s1 (note_latency os w1 s1 i).0 lt (note_touch-Stamped s i v lt o os w)
        λ v2 lt2 o2. note_latency-Stamped s1 i v2 lt2 o2 os w1
