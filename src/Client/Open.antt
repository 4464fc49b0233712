-- ===== src/Client/Open.antt =====
-- Clients are opened, closed and reused, and the array stays right.
use tcpframe.Prelude.{
  Bool-cases, ℕ, ◌+◌, ◌%◌, ◌≤◌, ◌<◌, ◌≡◌, refl, sym, ap, ◌∙◌, subst, true, false, inl, inr, ◌==◌,
  update, Option, none, some, Option-cases, arith, done, Ret, ret_succ, Returns,
}
use tcpframe.Prelude.Bytes.{length, write_at}
use tcpframe.Os.{
  Os, Mask, CtlOp, ctl_add, ctl_del, event_none, event_writable, union, without, is_none,
}
use tcpframe.Client.Request.{request, encode_request-fits, length-request}
use tcpframe.Client.Types.{ClientFd, Worker, ProcCallback, send_to_server, with_client, incr}
use tcpframe.Client.Events.{
  registered, op_of, fill_request, ctl_fd, reactor_add_event, reactor_del_event, opened,
  place_client,
}
use tcpframe.Client.Ready.{Ready, sending, Armed, Armed-elsewhere}
use tcpframe.Client.Places.{is_open, Fits, IsSound, Sound-same, Sound-open}

-- The request is in the buffer, whole.
pub fill_request_lem :
    (c : ClientFd)
    → fill_request c
      ≡ record c { send_buf = write_at c.send_buf 0 request; send_buf_len = length request }
unfolding fill_request
fill_request_lem c = rw (fill_request, encode_request-fits 4097 (omega arith))

-- The array is right, and the number of its places is that of before.
pub record Kept (s s' : Worker) : Type 0 where
  pub sound : IsSound s'
  pub places : s'.need_client_num ≡ s.need_client_num
  pub stopped : s.stop ≡ 0 → s'.stop ≡ 0
  pub armed : Armed s.need_client_num s.clients → Armed s'.need_client_num s'.clients

-- What part of an operation leaves, after which a client need not be ready.
pub record Partly (s s' : Worker) : Type 0 where
  pub sound : IsSound s'
  pub places : s'.need_client_num ≡ s.need_client_num
  pub stopped : s.stop ≡ 0 → s'.stop ≡ 0

-- What opening a client leaves: where it succeeds one more is alive.
pub record Opened (s : Worker) (r : Ret) (s' : Worker) : Type 0 where
  pub kept : Kept s s'
  pub more : r ≡ ret_succ → s'.live_client_num ≡ s.live_client_num + 1
  pub others : (j : ℕ) → is_open (s.clients j) ≡ true → s'.clients j ≡ s.clients j

-- The place of a client after changes that leave its descriptor.
pub Fits-keep :
    (n i : ℕ) (c c' : ClientFd)
    → Fits n i c
    → c'.fd ≡ c.fd
    → c'.pep_loop ≡ c.pep_loop
    → c'.sended_len ≤ c'.send_buf_len
    → c'.send_buf_len ≤ 4097
    → c'.recv_buf_len ≤ 4096
    → Fits n i c'
Fits-keep n i c c' v same ptr a b d = record {
  placed = λ fd e. v.placed fd (sym same ∙ e);
  attached =
      λ o. ptr ∙ v.attached (subst (λ x. elim x [ none ↦ false | some f ↦ true ] ≡ true) same o);
  sent = a;
  send_room = b;
  recv_room = d;
}

pub is_open-keep : (c c' : ClientFd) → c'.fd ≡ c.fd → is_open c' ≡ is_open c
is_open-keep c c' e = ap (λ x. elim x [ none ↦ false | some f ↦ true ]) e

pub update_self : {A : Type 0} (f : ℕ → A) (i : ℕ) (v : A) → update f i v i ≡ v
update_self f i v = let hit : (i == i) ≡ true = ground arith in rw hit

pub update_other :
    {A : Type 0} (f : ℕ → A) (i j : ℕ) (v : A) → (i == j) ≡ false → update f i v j ≡ f j
update_other f i j v miss = rw miss refl

-- Writing a free place twice leaves the places that are taken.
elsewhere :
    (f : ℕ → ClientFd) (i j : ℕ) (c1 c2 : ClientFd)
    → is_open (f i) ≡ false
    → is_open (f j) ≡ true
    → update (update f i c1) i c2 j ≡ f j
elsewhere f i j c1 c2 free taken = elim (Bool-cases (i == j)) [
  | inl hit ↦
      let e : i ≡ j = ground arith in
      absurd (ground (arith, ap (λ k. is_open (f k)) e, free, taken))
  | inr miss ↦ rw miss refl
]

opened-Ready :
    (fd : ℕ) (c : ClientFd) → Ready (registered (opened c fd) event_writable send_to_server)
opened-Ready fd c =
    let filled = fill_request_lem (record c { fd = some fd; mask = event_none; pep_loop = true }) in
    rw filled (sending refl refl (omega (arith, length-request)))

module _ (os : Os)
    (works : (w : os.World) (op : CtlOp) (fd : ℕ) (m : Mask)
      → (os.epoll_ctl w op fd m).0 ≡ true) where
  open os use {World}

  -- epoll_ctl on a descriptor that is open succeeds.
  ctl_fd-works :
      (w : World) (op : CtlOp) (c : ClientFd) (m : Mask)
      → is_open c ≡ true
      → (ctl_fd os w op c.fd m).0 ≡ true
  unfolding ctl_fd
  ctl_fd-works w op c m o = elim (Option-cases c.fd) [
    | inl closed ↦ absurd (ground (arith, o, closed))
    | inr (fd, e) ↦ rw (ctl_fd, e) (works w op fd m)
  ]

  pub add_event-done :
      (w : World) (s : Worker) (i : ℕ) (mask : Mask) (func : ProcCallback)
      → is_open (s.clients i) ≡ true
      → (s.clients i).pep_loop ≡ true
      → is_none mask ≡ false
      → (w' : World) × (reactor_add_event os w s i mask func
          ≡ done (ret_succ, with_client s i (registered (s.clients i) mask func), w'))
  unfolding reactor_add_event
  add_event-done w s i mask func o ptr some_bit =
      let c = s.clients i in
      let ok = ctl_fd-works w (op_of c.mask ctl_add) c (union c.mask mask) o in
      ((ctl_fd os w (op_of c.mask ctl_add) c.fd (union c.mask mask)).1, rw (ptr, some_bit, ok))

  pub del_event-done :
      (w : World) (s : Worker) (i : ℕ) (mask : Mask)
      → is_open (s.clients i) ≡ true
      → (s.clients i).pep_loop ≡ true
      → (w' : World) × (reactor_del_event os w s i mask
          ≡ done (
            ret_succ,
            with_client s i (record (s.clients i) { mask = without (s.clients i).mask mask }),
            w',
          ))
  unfolding reactor_del_event
  del_event-done w s i mask o ptr =
      let c = s.clients i in
      let rest = without c.mask mask in
      let ok = ctl_fd-works w (op_of rest ctl_del) c rest o in
      ((ctl_fd os w (op_of rest ctl_del) c.fd rest).1, rw (ptr, ok))

  opened-Fits : (n i fd : ℕ) (c : ClientFd) → fd % n ≡ i → Fits n i (opened c fd)
  opened-Fits n i fd c e =
      let filled =
        fill_request_lem (record c { fd = some fd; mask = event_none; pep_loop = true }) in
      rw filled (record {
        placed = λ g h. subst (λ x. x % n ≡ i) (some_inj fd g h) e;
        attached = λ o. refl;
        sent = omega arith;
        send_room = omega (arith, length-request);
        recv_room = omega arith;
      })
    where
      some_inj : (a b : ℕ) → ◌≡◌ {A = Option ℕ} (some a) (some b) → a ≡ b
      some_inj a b h = cc

  opened-open :
      (fd : ℕ) (c : ClientFd) → (is_open (opened c fd) ≡ true) × ((opened c fd).pep_loop ≡ true)
  opened-open fd c =
      let filled =
        fill_request_lem (record c { fd = some fd; mask = event_none; pep_loop = true }) in
      rw filled (refl, refl)

  pub place_client-Opened :
      (w : World) (s : Worker) (fd : ℕ)
      → IsSound s
      → Returns (λ (r, s', w'). Opened s r s') (place_client os w s fd)
  unfolding place_client
  place_client-Opened w s fd v =
      let n = s.need_client_num in
      let i = fd % n in
      let c = s.clients i in
      let c1 = opened c fd in
      let inside : i < n = ground (arith, v.some_client) in
      let some_place : (n == 0) ≡ false = ground (arith, v.some_client) in
      let (o, ptr) = opened-open fd c in
      let self = update_self s.clients i c1 in
      let s1 = with_client s i c1 in
      let fits = opened-Fits n i fd c refl in
      elim (Option-cases c.fd) [
        | inr (other, e) ↦
            rw (some_place, e)
              (record {
                kept = record { sound = v; places = refl; stopped = λ h. h; armed = λ h. h };
                more = λ h. absurd (ground (arith, h));
                others = λ j h. refl;
              })
        | inl e ↦
            let (w', added) =
              add_event-done w s1 i event_writable send_to_server
                (subst (λ x. is_open x ≡ true) (sym self) o)
                (subst (λ x. x.pep_loop ≡ true) (sym self) ptr) refl in
            let free : is_open c ≡ false = ap (λ x. elim x [ none ↦ false | some f ↦ true ]) e in
            let (sound1, more) =
              Sound-open n s.live_client_num s.clients s.done_requests s.need_request_num i c1 v
                inside fits free o in
            let c2 = registered (s1.clients i) event_writable send_to_server in
            let fits2 : Fits n i c2 =
              subst (λ x. Fits n i (registered x event_writable send_to_server)) (sym self)
                (Fits-keep n i c1 (registered c1 event_writable send_to_server) fits refl refl
                  fits.sent fits.send_room fits.recv_room) in
            let ready2 : Ready c2 =
              subst (λ x. Ready (registered x event_writable send_to_server)) (sym self)
                (opened-Ready fd c) in
            rw (some_place, e, added)
              (record {
                kept = record {
                  sound =
                      Sound-same n (incr s.live_client_num) s1.clients s.done_requests
                        s.need_request_num i c2 sound1 inside fits2 refl;
                  places = refl;
                  stopped = λ h. h;
                  armed = λ a.
                      Armed-elsewhere n s.clients (update s1.clients i c2) i a
                        (λ j miss.
                          update_other s1.clients i j c2 miss ∙ update_other s.clients i j c1 miss)
                        (subst Ready (sym (update_self s1.clients i c2)) ready2);
                };
                more = λ h. more;
                others = λ j h. elsewhere s.clients i j c1 c2 free h;
              })
      ]
