-- ===== src/Server/Header.antt =====
-- The header of a packet is complete: the buffer is made to fit, and reading goes on.
use tcpframe.Prelude.{
  ℕ, ◌+◌, ◌-◌, ◌≤◌, ◌<◌, ◌≡◌, refl, sym, ap, ◌∙◌, inl, inr, Bool-cases, Bool, true, false, List,
  ◌++◌, leb, ◌==◌, if◌then◌else◌, arith, Returns-inv,
}
use tcpframe.Prelude.Bytes.{read_at, get32}
use tcpframe.Prelude.Unless.{
  Unless, Unless-if, Unless-bind, Unless-done, Unless-any, Unless-returned,
}
use tcpframe.Os.{Os, OsLaws}
use tcpframe.Packet.{proto_soh, packet_len_pos, packet_body_pos, packet_max_len, packet_head_len}
use tcpframe.Conn.{ConnFd, new_block, copy_out, grow, must_resize, resize_recv_buffer_ptr}
use tcpframe.Conn.Recv.{Roomy, resize_recv_buffer_ptr-Roomy}
use tcpframe.Server.Defs.{Server, with_conn}
use tcpframe.Server.Io.{bad_head, check_head}
use tcpframe.Server.Collect.{same_cells, Taken, HasHead, Collects, recv_body-Collects}

module _ (os : Os) (laws : OsLaws os) (fd : ℕ) (stream : List ℕ) where
  -- ResizeRecvBufferPtr leaves the descriptor and the length of the packet.
  resize_rest :
      (found : Bool) (c : ConnFd) (need : ℕ)
      → Unless
          (λ (ok, c'). (c'.fd ≡ c.fd) × (c'.packet_len ≡ c.packet_len))
          (resize_recv_buffer_ptr found c need)
  unfolding resize_recv_buffer_ptr
  resize_rest found c need = Unless-if _ (need == 0) _ _ (Unless-done _ _ (refl, refl)) (
      Unless-if _ (leb (c.recv_cur_len + need) c.recv_total_len) _ _ (Unless-done _ _ (refl, refl))
        (Unless-bind _ _ (grow (c.recv_cur_len + need + 1) c.recv_total_len c.recv_cur_len need) _
          (Unless-any _)
          λ total u.
            Unless-if _ found _ _
              (Unless-bind _ _ (copy_out c.recv_buf 0 c.recv_cur_len (new_block total)) _
                (Unless-any _) λ b v. Unless-done _ _ (refl, refl))
              (Unless-done _ _ (refl, refl))))

  -- The buffer has been made to fit a packet whose header is in it.
  resized-Taken :
      (w w' : os.World) (c c' : ConnFd) (need : ℕ)
      → Taken os laws fd stream w c
      → laws.incoming w' fd ≡ laws.incoming w fd
      → c'.fd ≡ c.fd
      → Roomy c need c'
      → Taken os laws fd stream w' c'
  resized-Taken w w' c c' need t same fd_same r = record {
    same_fd = fd_same ∙ t.same_fd;
    sound = r.sound;
    bytes =
        t.bytes
        ∙ ap (λ x. read_at c.recv_buf.cells 0 c.recv_cur_len ++ x) (sym same)
        ∙ ap (λ x. x ++ laws.incoming w' fd)
            (sym r.kept ∙ ap (λ n. read_at c'.recv_buf.cells 0 n) (sym r.same_len));
  }

  resized-HasHead :
      (c c' : ConnFd) (need : ℕ)
      → packet_head_len ≤ c.recv_cur_len
      → c'.packet_len ≡ c.packet_len
      → c.packet_len ≤ c.recv_cur_len + need
      → Roomy c need c'
      → c.recv_buf.cells 0 ≡ proto_soh
      → c.packet_len ≡ get32 c.recv_buf.cells packet_len_pos
      → (packet_body_pos < c.packet_len) × (c.packet_len ≤ packet_max_len)
      → HasHead os laws fd stream c'
  unfolding get32
  resized-HasHead c c' need first len_same fits r soh len bounds =
      let cell : (i : ℕ) → i < packet_head_len → c'.recv_buf.cells i ≡ c.recv_buf.cells i = λ i lt.
        same_cells c'.recv_buf.cells c.recv_buf.cells 0 c.recv_cur_len i r.kept (omega arith)
          (omega arith) in
      record {
        soh = cell 0 (omega arith) ∙ soh;
        len =
            rw
              (
                cell 1 (omega arith),
                cell 2 (omega arith),
                cell 3 (omega arith),
                cell 4 (omega arith),
              )
              (len_same ∙ len);
        bounds = (omega (arith, len_same, bounds.0), omega (arith, len_same, bounds.1));
        room = omega (arith, len_same, r.room, r.same_len);
      }

  -- Neither branch of the malloc in ResizeRecvBufferPtr reads, or adds signals.
  after_malloc :
      (b : Bool) (w : os.World) (n : ℕ)
      → (laws.incoming (if b then (os.malloc w n).1 else w) fd ≡ laws.incoming w fd)
        × (laws.signals (if b then (os.malloc w n).1 else w) ≡ laws.signals w)
  after_malloc true w n = (laws.malloc_reads_nothing w n fd, laws.malloc_keeps_signals w n)
  after_malloc false w n = (refl, refl)

  good_head :
      (c : ConnFd)
      → bad_head c ≡ false
      → (c.recv_buf.cells 0 ≡ proto_soh)
        × (packet_body_pos < c.packet_len)
        × (c.packet_len ≤ packet_max_len)
  unfolding bad_head
  good_head c good = (ground (arith, good), ground (arith, good), ground (arith, good))

  -- The header has just been completed.
  pub check_head-Collects :
      (fuel : ℕ) (w : os.World) (s : Server) (p : ℕ) (c : ConnFd) (n : ℕ)
      → Taken os laws fd stream w c
      → c.recv_cur_len ≡ packet_head_len
      → n < packet_head_len
      → laws.signals w + 4096 < fuel
      → Collects os laws fd stream fuel s p n (check_head os fuel w s p c)
  unfolding check_head
  check_head-Collects fuel w s p c n t first before enough =
      let c1 = record c { packet_len = get32 c.recv_buf.cells packet_len_pos } in
      let need = c1.packet_len - packet_head_len in
      let (found, w0) = os.malloc w c1.packet_len in
      let t1 : Taken os laws fd stream w c1 = record {
        same_fd = t.same_fd;
        sound = record {
          some_byte = t.sound.some_byte;
          size = t.sound.size;
          within = t.sound.within;
        };
        bytes = t.bytes;
      } in
      elim (Bool-cases (bad_head c1)) [
        | inl bad ↦ rw bad (inl (w, with_conn s p c1, refl, refl))
        | inr good ↦
            let (soh, above, below) = good_head c1 good in
            let w1 = if must_resize c1 need then w0 else w in
            let (same, calm) = after_malloc (must_resize c1 need) w c1.packet_len in
            let ((ok, c2), e, cases) = Returns-inv _ (resize_recv_buffer_ptr found c1 need) (
              resize_recv_buffer_ptr-Roomy found c1 need t1.sound (omega (arith, above))
                (omega (arith, first, below))) in
            let (fd_same, len_same) = Unless-returned _ _ (ok, c2) (resize_rest found c1 need) e in
            elim cases [
              | inl (fits, roomy) ↦
                  rw (good, e, fits)
                    (recv_body-Collects os laws fd stream fuel w1 (with_conn s p c2) p c2 n
                      (resized-Taken w w1 c1 c2 need t1 same fd_same roomy)
                      (resized-HasHead c1 c2 need (omega (arith, first)) len_same
                        (omega (arith, first)) roomy soh refl (above, below))
                      (omega (arith, first, roomy.same_len))
                      (omega (arith, first, roomy.same_len, len_same, above))
                      (omega (arith, first, roomy.same_len, before)) (omega (arith, calm)))
              | inr (refused, none_left) ↦
                  rw (good, e, refused) (inl (w1, with_conn s p c2, refl, refl))
            ]
      ]
