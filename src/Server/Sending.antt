-- ===== src/Server/Sending.antt =====
-- One call of ProcessSendCallback: the part of the packet that was handed over grows in order.
use mathlib.Core.List.{append_assoc}
use tcpframe.Prelude.{
  ℕ, ◌+◌, ◌-◌, ◌≤◌, ◌<◌, ◌≡◌, refl, sym, ap, subst, ◌∙◌, ◌≢◌, ◌⊎◌, inl, inr, Bool-cases, true,
  false, List, ◌++◌, not, ltb, none, some, ◌==◌, arith, done, fault, exits, Returns-inv,
}
use tcpframe.Prelude.Int.{ℤ, pos, negsuc}
use tcpframe.Prelude.Bytes.{length, read_at, read_at_split}
use tcpframe.Prelude.Unless.{
  Unless, Unless-bind, Unless-if, Unless-ret, Unless-weaken, Unless-done, Unless-exits,
  Unless-fault, Unless-any,
}
use tcpframe.MinHeap.{null}
use tcpframe.Os.{Os, OsLaws, Mask, event_writable, overlaps, without, is_none}
use tcpframe.Reactor.{EventBase, del_op, event_del, fd_file_event_init}
use tcpframe.Timers.{unregister_timer_out_event}
use tcpframe.SocketIo.{send_data}
use tcpframe.SocketIo.Send.{send_data-Sent}
use tcpframe.Conn.{ConnFd}
use tcpframe.Server.Defs.{Server, with_conn, deref, release_conn, destroy_conn}
use tcpframe.Server.Io.{finish_send, process_send_callback}

pub opens : (s : Server) (p : ℕ) (c : ConnFd) → s.conns p ≡ some c → deref s p ≡ done c
unfolding deref
opens s p c live = rw (deref, live)

shut : (s : Server) (p : ℕ) → s.conns p ≡ none → deref s p ≡ fault
unfolding deref
shut s p gone = rw (deref, gone)

module _ (os : Os) where
  release_conn-frees :
      (w : os.World) (s : Server) (p : ℕ) (c : ConnFd)
      → Unless (λ (s', w'). s'.conns p ≡ none) (release_conn os w s p c)
  unfolding release_conn
  release_conn-frees w s p c =
      Unless-bind _ _ (unregister_timer_out_event s.base c.timeout_event) _ (Unless-any _)
        λ (r1, b1) u.
          Unless-bind _ _ (fd_file_event_init b1 c.fd) _ (Unless-any _)
            λ (r2, b2) v. Unless-done _ _ (ground arith)

  -- Where __DestroyConn returns, the connection is freed.
  pub destroy_conn-frees :
      (w : os.World) (s : Server) (p : ℕ)
      → Unless (λ (s', w'). s'.conns p ≡ none) (destroy_conn os w s p)
  unfolding destroy_conn
  destroy_conn-frees w s p = Unless-bind _ _ (deref s p) _ (Unless-any _) λ c u.
      Unless-bind _ _ (event_del os w _ c.fd _) _ (Unless-any _)
        λ (r, b', w') v. Unless-ret _ r exits _ (Unless-exits _) (release_conn-frees _ _ p c)

module _ (os : Os) (laws : OsLaws os) where
  event_del_writes_nothing :
      (w : os.World) (b : EventBase) (fd : ℕ) (mask : Mask) (g : ℕ)
      → Unless (λ (r, b', w'). laws.outgoing w' g ≡ laws.outgoing w g) (event_del os w b fd mask)
  unfolding event_del
  event_del_writes_nothing w b fd mask g =
      Unless-if _ (ltb b.fd_event_array_size fd) _ _ (Unless-done _ _ refl) (
        Unless-if _ (fd == b.fd_event_array_size) _ _ (Unless-fault _) (
          Unless-if _ (is_none (b.fd_events fd).mask) _ _ (Unless-done _ _ refl) (
            Unless-if _ (not (overlaps (b.fd_events fd).mask mask)) _ _ (Unless-done _ _ refl) (
              Unless-done _ _ (
                laws.ctl_writes_nothing w (del_op (without (b.fd_events fd).mask mask)) fd
                  (without (b.fd_events fd).mask mask) g)))))

  module _ (p fd : ℕ) (start packet : List ℕ) where
    -- A part of the packet has been handed over, and the rest is waiting in the buffer.
    pub record Half (w : os.World) (c : ConnFd) : Type 0 where
      pub same_fd : c.fd ≡ fd
      pub size : c.send_packet_len ≡ length packet
      pub room : c.send_packet_len ≤ c.send_buf.total
      pub bytes : read_at c.send_buf.cells 0 c.send_packet_len ≡ packet
      pub part : c.send_cur_len < c.send_packet_len
      pub out : laws.outgoing w fd ≡ start ++ read_at c.send_buf.cells 0 c.send_cur_len

    -- The whole packet has been handed over, and nothing is waiting.
    pub record Whole (w : os.World) (c : ConnFd) : Type 0 where
      pub same_fd : c.fd ≡ fd
      pub nothing : (c.send_packet_len ≡ 0) × (c.send_cur_len ≡ 0)
      pub out : laws.outgoing w fd ≡ start ++ packet

    -- The connection is gone, or the bytes handed over since `start` are the part of the packet that
    -- it has counted, or the packet.
    abbrev pub Delivers : Server × os.World → Type 0
    Delivers (s, w) =
        (s.conns p ≡ none) ⊎ ((c : ConnFd) × (s.conns p ≡ some c) × (Half w c ⊎ Whole w c))

    kept_conn : (s : Server) (c : ConnFd) → (with_conn s p c).conns p ≡ some c
    kept_conn s c = ground arith

    -- What has been handed over after `n` more bytes.
    advance :
        (w w' : os.World) (c : ConnFd) (n : ℕ)
        → Half w c
        → laws.outgoing w' fd
          ≡ laws.outgoing w fd ++ read_at c.send_buf.cells (c.send_cur_len + 0) n
        → laws.outgoing w' fd ≡ start ++ read_at c.send_buf.cells 0 (c.send_cur_len + n)
    advance w w' c n half sent =
        let zero_off : c.send_cur_len + 0 ≡ 0 + c.send_cur_len = omega arith in
        sent
        ∙ ap (λ x. x ++ read_at c.send_buf.cells (c.send_cur_len + 0) n) half.out
        ∙ append_assoc start _ _
        ∙ ap (λ x. start ++ (read_at c.send_buf.cells 0 c.send_cur_len ++ x))
            (ap (λ i. read_at c.send_buf.cells i n) zero_off)
        ∙ ap (λ x. start ++ x) (sym (read_at_split c.send_buf.cells 0 c.send_cur_len n))

    finish_send-Delivers :
        (k : ℕ) (w w' : os.World) (s : Server) (c : ConnFd) (n : ℕ)
        → Half w c
        → c.send_cur_len + n ≤ c.send_packet_len
        → laws.outgoing w' fd ≡ start ++ read_at c.send_buf.cells 0 (c.send_cur_len + n)
        → Unless Delivers (finish_send os k w' s p (record c { send_cur_len = c.send_cur_len + n }))
    unfolding finish_send
    finish_send-Delivers k w w' s c n half within sent =
        elim (Bool-cases (c.send_packet_len == c.send_cur_len + n)) [
          | inl all ↦
              let e : c.send_cur_len + n ≡ c.send_packet_len = ground arith in
              rw all (
                Unless-bind _ _ (event_del os w' s.base c.fd event_writable) _
                  (event_del_writes_nothing w' s.base c.fd event_writable fd)
                  λ (r, b, w'') same. Unless-ret _ r exits _ (Unless-exits _) (
                    Unless-done _ _ (
                      inr (
                        record c { send_packet_len = 0; send_cur_len = 0 },
                        ground arith,
                        inr (record {
                          same_fd = half.same_fd;
                          nothing = (refl, refl);
                          out =
                              same
                              ∙ sent
                              ∙ ap (λ m. start ++ read_at c.send_buf.cells 0 m) e
                              ∙ ap (λ x. start ++ x) half.bytes;
                        }),
                      ))))
          | inr some_left ↦ rw some_left (
              Unless-done _ _ (
                inr (
                  record c { send_cur_len = c.send_cur_len + n },
                  kept_conn s _,
                  inl (record {
                    same_fd = half.same_fd;
                    size = half.size;
                    room = half.room;
                    bytes = half.bytes;
                    part = ground arith;
                    out = sent;
                  }),
                )))
        ]

    sent_or_failed :
        (k : ℕ) (w w' : os.World) (s : Server) (c : ConnFd) (ret : ℤ) (n : ℕ)
        → Half w c
        → c.send_cur_len + n ≤ c.send_packet_len
        → ((ret ≡ pos n) ⊎ (ret ≡ negsuc 0))
        → laws.outgoing w' fd ≡ start ++ read_at c.send_buf.cells 0 (c.send_cur_len + n)
        → Unless Delivers (elim ret [
          | negsuc m ↦ destroy_conn os w' s p
          | pos m ↦ finish_send os k w' s p (record c { send_cur_len = c.send_cur_len + m })
        ])
    sent_or_failed k w w' s c ret n half within (inl some_bytes) sent =
        rw some_bytes (finish_send-Delivers k w w' s c n half within sent)
    sent_or_failed k w w' s c ret n half within (inr failed) sent =
        rw failed (Unless-weaken _ _ _ (destroy_conn-frees os w' s p) λ (s', w'') gone. inl gone)

    pub Half-turn :
        (k : ℕ) (w : os.World) (s : Server) (c : ConnFd)
        → p ≢ null
        → fd ≢ 0
        → s.conns p ≡ some c
        → Half w c
        → laws.signals w + length packet < k
        → Unless Delivers (process_send_callback os k w s p)
    unfolding process_send_callback
    Half-turn k w s c solid open_fd live half enough =
        let rest = c.send_packet_len - c.send_cur_len in
        let nonnull : (p == null) ≡ false = ground arith in
        let waiting : (c.send_packet_len == 0) ≡ false = ground (arith, half.part) in
        let ((ret, w'), e, (n, within, code, sent)) =
          Returns-inv _ (send_data os k w c.send_buf c.fd c.send_cur_len rest) (
            send_data-Sent os laws c.send_buf c.fd c.send_cur_len rest k w
              (λ z. open_fd (sym half.same_fd ∙ z)) (omega (arith, half.room, half.part))
              (omega (arith, half.size))) in
        let sent' : laws.outgoing w' fd
            ≡ laws.outgoing w fd ++ read_at c.send_buf.cells (c.send_cur_len + 0) n =
          subst
            (λ g.
              laws.outgoing w' g
              ≡ laws.outgoing w g ++ read_at c.send_buf.cells (c.send_cur_len + 0) n)
            half.same_fd sent in
        let within' : c.send_cur_len + n ≤ c.send_packet_len = omega (arith, half.part) in
        let none_yet : 0 + n ≡ n = omega arith in
        let code' = subst (λ m. (ret ≡ pos m) ⊎ (ret ≡ negsuc 0)) none_yet code in
        rw (nonnull, opens s p c live, waiting, e)
          (sent_or_failed k w w' s c ret n half within' code' (advance w w' c n half sent'))

    pub Whole-turn :
        (k : ℕ) (w : os.World) (s : Server) (c : ConnFd)
        → p ≢ null
        → s.conns p ≡ some c
        → Whole w c
        → Unless Delivers (process_send_callback os k w s p)
    unfolding process_send_callback
    Whole-turn k w s c solid live whole =
        let nonnull : (p == null) ≡ false = ground arith in
        let idle : (c.send_packet_len == 0) ≡ true = ground (arith, whole.nothing.0) in
        rw (nonnull, opens s p c live, idle) (Unless-done _ _ (inr (c, live, inr whole)))

    pub gone-turn :
        (k : ℕ) (w : os.World) (s : Server)
        → p ≢ null
        → s.conns p ≡ none
        → Unless Delivers (process_send_callback os k w s p)
    unfolding process_send_callback
    gone-turn k w s solid gone =
        let nonnull : (p == null) ≡ false = ground arith in
        rw (nonnull, shut s p gone) (Unless-fault _)
