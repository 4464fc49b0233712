-- ===== src/Client/Finish.antt =====
-- The callbacks once bytes were moved: what is left is in order.
use tcpframe.Prelude.{
  ◌≢◌, sym, ap, subst, ◌∙◌, ℕ, ◌+◌, ◌-◌, ◌≤◌, ◌<◌, ◌≡◌, refl, true, Bool-cases, inl, inr, ltb, ◌==◌,
  List, arith, update,
}
use tcpframe.Prelude.Safe.{Safe, Safe-done, Safe-exits, Safe-if, Safe-weaken}
use tcpframe.Prelude.Bytes.{length, write_at}
use tcpframe.Os.{Os, Mask, CtlOp, event_readable, event_writable, without, union}
use tcpframe.Client.Types.{ClientFd, Worker, incr, recv_from_server, with_client, to_uint64}
use tcpframe.Client.Events.{registered, reactor_close_connection_normal}
use tcpframe.Client.Callbacks.{finish_write, count_response, finish_read}
use tcpframe.Client.Places.{is_open, IsSound}
use tcpframe.Client.Ready.{Ready, sending, receiving, Ready-keep}
use tcpframe.Client.Open.{update_self}
use tcpframe.Client.Local.{Touched, Local, Local-trans, Touched-Local, with_client-Touched}
use tcpframe.Client.Touch.{swap-Touched}
use tcpframe.Client.Reuse.{normal-Local}

-- A client whose request is sent waits for the response.
abbrev to_read : ClientFd → ClientFd
to_read c =
    registered (record c { mask = without c.mask event_writable }) event_readable recv_from_server

sent-Ready :
    (c : ClientFd) (n : ℕ) → Ready c → Ready (to_read (record c { sended_len = c.sended_len + n }))
sent-Ready c n (sending mask func left) =
    receiving (ap (λ m. union (without m event_writable) event_readable) mask) refl
      (omega (arith, left))
sent-Ready c n (receiving mask func some_byte) =
    receiving (ap (λ m. union (without m event_writable) event_readable) mask) refl some_byte

-- A client whose request is sent in part waits to send the rest.
part-Ready :
    (c : ClientFd) (n : ℕ)
    → c.sended_len + n ≤ c.send_buf_len
    → c.sended_len + n ≢ c.send_buf_len
    → Ready c
    → Ready (record c { sended_len = c.sended_len + n })
part-Ready c n fits rest (sending mask func left) = sending mask func (omega (arith, fits, rest))
part-Ready c n fits rest (receiving mask func some_byte) = receiving mask func some_byte

module _ (os : Os)
    (works : (w : os.World) (op : CtlOp) (fd : ℕ) (m : Mask)
      → (os.epoll_ctl w op fd m).0 ≡ true) where
  pub finish_write-Local :
      (w : os.World) (s : Worker) (i n : ℕ)
      → IsSound s
      → i < s.need_client_num
      → is_open (s.clients i) ≡ true
      → (s.clients i).sended_len + n ≤ (s.clients i).send_buf_len
      → Safe (λ (s', w'). Local i s s') (finish_write os w s i n)
  unfolding finish_write
  finish_write-Local w s i n v lt o fits =
      let c = record (s.clients i) { sended_len = (s.clients i).sended_len + n } in
      let u = v.each i lt in
      let t = with_client-Touched s i c v lt o (record {
        fd = refl;
        pointers = refl;
        sent = fits;
        send_room = u.send_room;
        recv_room = u.recv_room;
      }) in
      let s1 = record (with_client s i c) { total_requests = incr s.total_requests } in
      let self = update_self s.clients i c in
      Safe-if _ (c.sended_len == c.send_buf_len) _ _
        (λ h.
          swap-Touched os w s1 i event_writable event_readable recv_from_server t.kept.sound lt
            t.taken refl _ _
            λ r s3 w3 u3 now.
              let whole : Touched s i s3 = record {
                kept = record {
                  sound = u3.kept.sound;
                  places = u3.kept.places;
                  stopped = u3.kept.stopped;
                };
                taken = u3.taken;
                others = λ j miss. u3.others j miss ∙ t.others j miss;
              } in
              Safe-done _ _ (
                Touched-Local s i s3 whole λ a.
                  subst Ready (sym (now ∙ ap to_read self))
                    (sent-Ready (s.clients i) n (a i lt o))))
        λ h.
          let whole : Touched s i s1 = record {
            kept = record { sound = t.kept.sound; places = refl; stopped = λ h. h };
            taken = t.taken;
            others = t.others;
          } in
          Safe-done _ _ (
            Touched-Local s i s1 whole λ a.
              subst Ready (sym self)
                (part-Ready (s.clients i) n fits (ground (arith, h)) (a i lt o)))

  count_response-Local :
      (w : os.World) (s : Worker) (i : ℕ)
      → IsSound s
      → i < s.need_client_num
      → is_open (s.clients i) ≡ true
      → Safe (λ (s', w'). Local i s s') (count_response os w s i)
  unfolding count_response
  count_response-Local w s i v lt o = elim (Bool-cases (ltb s.done_requests s.need_request_num)) [
    | inl more ↦
        let counted = record s {
          latency = update s.latency s.done_requests (to_uint64 (s.clients i).latency);
          done_requests = incr s.done_requests;
        } in
        let sound : IsSound counted = record {
          some_client = v.some_client;
          few = v.few;
          each = v.each;
          live_eq = v.live_eq;
          done_le = ground (arith, more, v.few_requests);
          few_requests = v.few_requests;
        } in
        let same_clients : Local i s counted = record {
          kept = record { sound = sound; places = refl; stopped = λ h. h; armed = λ a. a };
          others = λ j miss o. refl;
        } in
        rw more (
          Safe-weaken _ _ (reactor_close_connection_normal os w counted i)
            (normal-Local os works w counted i sound lt o)
            λ (s', w') k. Local-trans i s counted s' same_clients k)
    | inr full ↦ rw full (normal-Local os works w s i v lt o)
  ]

  pub finish_read-Local :
      (w : os.World) (s : Worker) (i : ℕ) (bs : List ℕ)
      → IsSound s
      → i < s.need_client_num
      → is_open (s.clients i) ≡ true
      → length bs ≤ 4097 - (s.clients i).recv_buf_len
      → Safe (λ (s', w'). Local i s s') (finish_read os w s i bs)
  unfolding finish_read
  finish_read-Local w s i bs v lt o few =
      let c = s.clients i in
      let u = v.each i lt in
      let len = c.recv_buf_len + length bs in
      Safe-if _ (ltb 4097 len) _ _ (λ h. absurd (ground (arith, u.recv_room, few, h)))
        λ h.
          Safe-if _ (ltb 4096 len) _ _ (λ k. Safe-exits _)
            λ k.
              let c1 = record c {
                recv_buf = write_at c.recv_buf c.recv_buf_len bs;
                recv_buf_len = len;
              } in
              let t = with_client-Touched s i c1 v lt o (record {
                fd = refl;
                pointers = refl;
                sent = u.sent;
                send_room = u.send_room;
                recv_room = ground (arith, k);
              }) in
              let self = update_self s.clients i c1 in
              let near =
                Touched-Local s i (with_client s i c1) t λ a.
                  subst Ready (sym self) (Ready-keep c c1 (a i lt o) refl refl refl refl refl) in
              Safe-weaken _ _ (count_response os w (with_client s i c1) i)
                (count_response-Local w (with_client s i c1) i t.kept.sound lt t.taken)
                λ (s', w') k'. Local-trans i s (with_client s i c1) s' near k'
