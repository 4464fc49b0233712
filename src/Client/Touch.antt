-- ===== src/Client/Touch.antt =====
-- Registrations, and ReactorResetClient, on one client.
use tcpframe.Prelude.{
  some, sym, subst, ℕ, ◌<◌, ◌≡◌, refl, ap, ◌∙◌, Bool, true, false, not, if◌then◌else◌, arith, Run,
  ◌>>=◌, Ret,
}
use tcpframe.Prelude.Safe.{Safe, Safe-done, Safe-exits, Safe-if, Safe-bind}
use tcpframe.Os.{Os, Mask, event_readable, event_writable, without, union, is_none}
use tcpframe.Client.Request.{length-request}
use tcpframe.Client.Types.{ClientFd, Worker, ProcCallback, send_to_server, with_client}
use tcpframe.Client.Events.{
  registered, fill_request, reactor_add_event, reactor_del_event, reactor_reset_client,
}
use tcpframe.Client.Places.{is_open, Fits, IsSound}
use tcpframe.Client.Ready.{Ready, sending, receiving, Armed, Ready-some_request}
use tcpframe.Client.Open.{fill_request_lem, update_self}
use tcpframe.Client.Local.{
  Touched, Partly-trans, Local, Touched-Local, Same, with_client-Touched, lengths-Same,
}

-- A client as it is reused: the request in the buffer is written anew where it is to be random.
abbrev pub reused : Bool → ClientFd → ClientFd
reused random c =
    let c1 = record c { recv_buf_len = 0; sended_len = 0 } in if random then fill_request c1 else c1

pub reused-Same : (random : Bool) (n i : ℕ) (c : ClientFd) → Fits n i c → Same c (reused random c)
reused-Same false n i c v = record {
  fd = refl;
  pointers = refl;
  sent = omega arith;
  send_room = v.send_room;
  recv_room = omega arith;
}
reused-Same true n i c v =
    rw (fill_request_lem (record c { recv_buf_len = 0; sended_len = 0 })) (record {
      fd = refl;
      pointers = refl;
      sent = omega arith;
      send_room = omega (arith, length-request);
      recv_room = omega arith;
    })

reused-Ready :
    (random : Bool) (c : ClientFd)
    → c.mask ≡ event_writable
    → c.w_func_proc ≡ some send_to_server
    → 0 < c.send_buf_len
    → Ready (reused random c)
reused-Ready false c mask func some_byte = sending mask func some_byte
reused-Ready true c mask func some_byte =
    rw (fill_request_lem (record c { recv_buf_len = 0; sended_len = 0 }))
      (sending mask func (omega (arith, length-request)))

-- A client that is reset is ready to send, whatever it waited for.
reset-Ready :
    (random : Bool) (c : ClientFd)
    → Ready c
    → Ready (
        reused random (
          registered
            (record c { mask = without c.mask event_readable })
            event_writable
            send_to_server))
reset-Ready random c ready =
    reused-Ready random
      (registered (record c { mask = without c.mask event_readable }) event_writable send_to_server)
      (mask_of ready) refl (Ready-some_request c ready)
  where
    mask_of : Ready c → union (without c.mask event_readable) event_writable ≡ event_writable
    mask_of (sending mask func left) =
        ap (λ m. union (without m event_readable) event_writable) mask
    mask_of (receiving mask func some_byte) =
        ap (λ m. union (without m event_readable) event_writable) mask

module _ (os : Os) (s : Worker) (i : ℕ) (v : IsSound s) (lt : i < s.need_client_num)
    (o : is_open (s.clients i) ≡ true) where
  pub add_event-Touched :
      (w : os.World) (mask : Mask) (func : ProcCallback)
      → is_none mask ≡ false
      → Safe
          (λ (r, s', w'). Touched s i s' × (s'.clients i ≡ registered (s.clients i) mask func))
          (reactor_add_event os w s i mask func)
  unfolding reactor_add_event
  add_event-Touched w mask func some_bit =
      let c = s.clients i in
      let same =
        lengths-Same s.need_client_num i c (registered c mask func) (v.each i lt) refl refl refl
          refl refl in
      Safe-if _ (not c.pep_loop) _ _ (λ h. Safe-exits _)
        λ h.
          Safe-if _ (is_none mask) _ _ (λ k. absurd (ground (arith, k, some_bit)))
            λ k. Safe-done _ _ (
              with_client-Touched s i (registered c mask func) v lt o same,
              update_self s.clients i (registered c mask func),
            )

  pub del_event-Touched :
      (w : os.World) (mask : Mask)
      → Safe
          (λ (r, s', w').
            Touched s i s'
            × (s'.clients i ≡ record (s.clients i) { mask = without (s.clients i).mask mask }))
          (reactor_del_event os w s i mask)
  unfolding reactor_del_event
  del_event-Touched w mask =
      let c = s.clients i in
      let u = v.each i lt in
      let c' = record c { mask = without c.mask mask } in
      Safe-if _ (not c.pep_loop) _ _ (λ h. absurd (ground (arith, u.attached o, h)))
        λ h. Safe-done _ _ (
          with_client-Touched s i c' v lt o
              (lengths-Same s.need_client_num i c c' u refl refl refl refl refl),
          update_self s.clients i c',
        )

module _ (os : Os) where
  -- A registration is taken off and another one made.
  pub swap-Touched :
      (w : os.World) (s : Worker) (i : ℕ) (off on : Mask) (func : ProcCallback)
      → IsSound s
      → i < s.need_client_num
      → is_open (s.clients i) ≡ true
      → is_none on ≡ false
      → {B : Type 0} (Q : B → Type 0) (f : Ret × Worker × os.World → Run B)
      → ((r : Ret) (s' : Worker) (w' : os.World)
          → Touched s i s'
          → s'.clients i
            ≡ registered (record (s.clients i) { mask = without (s.clients i).mask off }) on func
          → Safe Q (f (r, s', w')))
      → Safe Q (
          reactor_del_event os w s i off >>= λ (r1, s1, w1).
          reactor_add_event os w1 s1 i on func >>= f)
  swap-Touched w s i off on func v lt o some_bit Q f k =
      Safe-bind _ Q (reactor_del_event os w s i off) _ (del_event-Touched os s i v lt o w off)
        λ (r1, s1, w1) (t, now).
          let lt1 : i < s1.need_client_num = ground (arith, t.kept.places, lt) in
          Safe-bind _ Q (reactor_add_event os w1 s1 i on func) f
            (add_event-Touched os s1 i t.kept.sound lt1 t.taken w1 on func some_bit)
            λ (r2, s2, w2) (t2, now2).
              k r2 s2 w2
                (record {
                  kept = Partly-trans s s1 s2 t.kept t2.kept;
                  taken = t2.taken;
                  others = λ j miss. t2.others j miss ∙ t.others j miss;
                })
                (now2 ∙ ap (λ c. registered c on func) now)

  -- ReactorResetClient on a taken place.
  pub reset-Local :
      (w : os.World) (s : Worker) (i : ℕ)
      → IsSound s
      → i < s.need_client_num
      → is_open (s.clients i) ≡ true
      → Safe (λ (s', w'). Local i s s') (reactor_reset_client os w s i)
  unfolding reactor_reset_client
  reset-Local w s i v lt o =
      swap-Touched w s i event_readable event_writable send_to_server v lt o refl _ _
        λ r s2 w2 t now.
          let lt2 : i < s2.need_client_num = ground (arith, t.kept.places, lt) in
          let c = reused s2.random_flag (s2.clients i) in
          let t3 = with_client-Touched s2 i c t.kept.sound lt2 t.taken (
            reused-Same s2.random_flag s2.need_client_num i (s2.clients i)
              (t.kept.sound.each i lt2)) in
          let whole : Touched s i (with_client s2 i c) = record {
            kept = Partly-trans s s2 (with_client s2 i c) t.kept t3.kept;
            taken = t3.taken;
            others = λ j miss. t3.others j miss ∙ t.others j miss;
          } in
          let ready = λ (a : Armed s.need_client_num s.clients).
            subst Ready (sym (update_self s2.clients i c ∙ ap (reused s2.random_flag) now))
              (reset-Ready s2.random_flag (s.clients i) (a i lt o)) in
          let done_so = Touched-Local s i (with_client s2 i c) whole ready in
          Safe-done _ _ (record {
            kept = record {
              sound = done_so.kept.sound;
              places = done_so.kept.places;
              stopped = done_so.kept.stopped;
              armed = done_so.kept.armed;
            };
            others = done_so.others;
          })
