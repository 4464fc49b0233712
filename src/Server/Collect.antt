-- ===== src/Server/Collect.antt =====
-- The bytes of a stream are collected in order; a call that reads on behind a header.
use mathlib.Core.List.{append_assoc}
use tcpframe.Prelude.{
  ℕ, zero, suc, ◌+◌, ◌-◌, ◌≤◌, ◌<◌, ◌≡◌, refl, sym, ap, subst, ◌∙◌, ◌⊎◌, inl, inr, Bool-cases, List,
  [], ◌∷◌, ◌++◌, some, ◌==◌, min, arith, Run, done,
}
use tcpframe.Prelude.Int.{ℤ, pos, negsuc, pos_part}
use tcpframe.Prelude.Bytes.{length, read_at, read_at_ext, read_at_split, get32}
use tcpframe.Os.{Os, OsLaws}
use tcpframe.SocketIo.{Block}
use tcpframe.SocketIo.Recv.{Moved}
use tcpframe.Packet.{proto_soh, packet_len_pos, packet_body_pos, packet_max_len, packet_head_len}
use tcpframe.Conn.{ConnFd}
use tcpframe.Conn.Recv.{IsSound}
use tcpframe.Server.Defs.{Server, with_conn, destroy_conn}
use tcpframe.Server.Io.{recv_body, finish_packet}
use tcpframe.Server.Frame.{recv_body-Frames}

abbrev front : List ℕ → ℕ
front [] = 0
front (b ∷ bs) = b

abbrev rest : List ℕ → List ℕ
rest [] = []
rest (b ∷ bs) = bs

-- Blocks with the same bytes have the same cells.
pub same_cells :
    (m m' : ℕ → ℕ) (at n i : ℕ)
    → read_at m at n ≡ read_at m' at n
    → at ≤ i
    → i < at + n
    → m i ≡ m' i
unfolding read_at
same_cells m m' at zero i e below above = absurd (omega arith)
same_cells m m' at (suc n) i e below above = elim (Bool-cases (at == i)) [
  | inl hit ↦ subst (λ j. m j ≡ m' j) (ground arith) (ap front e)
  | inr miss ↦ same_cells m m' (suc at) n i (ap rest e) (ground arith) (omega arith)
]

module _ (os : Os) (laws : OsLaws os) (fd : ℕ) (stream : List ℕ) where
  -- The connection has taken the first bytes of the stream, and has them in its buffer.
  pub record Taken (w : os.World) (c : ConnFd) : Type 0 where
    pub same_fd : c.fd ≡ fd
    pub sound : IsSound c
    pub bytes : stream ≡ read_at c.recv_buf.cells 0 c.recv_cur_len ++ laws.incoming w fd

  -- The header of a packet is there, and says its length.
  pub record HasHead (c : ConnFd) : Type 0 where
    pub soh : c.recv_buf.cells 0 ≡ proto_soh
    pub len : c.packet_len ≡ get32 c.recv_buf.cells packet_len_pos
    pub bounds : (packet_body_pos < c.packet_len) × (c.packet_len ≤ packet_max_len)
    pub room : c.packet_len ≤ c.recv_buf.total

  -- A packet is coming in: its header, or what follows.
  abbrev pub Coming : os.World → ConnFd → Type 0
  Coming w c =
      Taken w c
      × (((c.recv_cur_len < packet_head_len) × (packet_head_len ≤ c.recv_total_len))
          ⊎ ((packet_head_len ≤ c.recv_cur_len) × (c.recv_cur_len < c.packet_len) × HasHead c))

  -- The whole packet is in the buffer.
  abbrev pub Arrived : os.World → ConnFd → Type 0
  Arrived w c = Taken w c × HasHead c × (c.recv_cur_len ≡ c.packet_len)

  -- How a call of ProcessRecvCallback goes on: it destroys the connection, or leaves it with more
  -- than `n` bytes of the packet, or handles the whole packet.
  abbrev pub Collects : ℕ → Server → ℕ → ℕ → Run (Server × os.World) → Type 0
  Collects fuel s p n r =
      ((w' : os.World) × (s' : Server) × (s'.base ≡ s.base) × (r ≡ destroy_conn os w' s' p))
      ⊎ ((w' : os.World) × (s' : Server) × (c' : ConnFd) × (s'.base ≡ s.base)
          × (s'.conns p ≡ some c')
          × (n < c'.recv_cur_len)
          × Coming w' c'
          × (r ≡ done (s', w')))
      ⊎ ((w' : os.World) × (s' : Server) × (c' : ConnFd) × (s'.base ≡ s.base)
          × (s'.conns p ≡ some c')
          × Arrived w' c'
          × (r ≡ finish_packet os fuel w' s' p c'))

  -- The bytes that a read brings, behind those that are there.
  pub Taken-more :
      (w w' : os.World) (c : ConnFd) (limit : ℕ) (bs : List ℕ) (buf : Block)
      → Taken w c
      → limit ≤ c.recv_total_len
      → Moved os laws c.fd c.recv_cur_len w c.recv_buf c.recv_cur_len limit bs buf w'
      → Taken w' (record c { recv_buf = buf; recv_cur_len = c.recv_cur_len + length bs })
  Taken-more w w' c limit bs buf t fits m = record {
    same_fd = t.same_fd;
    sound = record {
      some_byte = t.sound.some_byte;
      size = m.size ∙ t.sound.size;
      within = omega (arith, m.within);
    };
    bytes =
        t.bytes
        ∙ ap (λ x. read_at c.recv_buf.cells 0 c.recv_cur_len ++ x)
            (subst (λ g. laws.incoming w g ≡ bs ++ laws.incoming w' g) t.same_fd m.stream)
        ∙ sym (append_assoc _ bs _)
        ∙ ap (λ x. x ++ laws.incoming w' fd) (sym joined);
  }
    where
      zero_off : 0 + c.recv_cur_len ≡ c.recv_cur_len
      zero_off = omega arith

      kept : read_at buf.cells 0 c.recv_cur_len ≡ read_at c.recv_buf.cells 0 c.recv_cur_len
      kept =
          read_at_ext c.recv_buf.cells buf.cells 0 c.recv_cur_len
            λ i p q. m.outside i (inl (omega arith))

      joined :
          read_at buf.cells 0 (c.recv_cur_len + length bs)
          ≡ read_at c.recv_buf.cells 0 c.recv_cur_len ++ bs
      joined =
          read_at_split buf.cells 0 c.recv_cur_len (length bs)
          ∙ ap (λ x. x ++ read_at buf.cells (0 + c.recv_cur_len) (length bs)) kept
          ∙ ap (λ x. read_at c.recv_buf.cells 0 c.recv_cur_len ++ x)
              (ap (λ i. read_at buf.cells i (length bs)) zero_off ∙ m.stored)

  head_kept :
      (c : ConnFd) (buf : Block) (n : ℕ)
      → ((i : ℕ) → i < packet_head_len → buf.cells i ≡ c.recv_buf.cells i)
      → buf.total ≡ c.recv_buf.total
      → HasHead c
      → HasHead (record c { recv_buf = buf; recv_cur_len = n })
  unfolding get32
  head_kept c buf n same size h = record {
    soh = same 0 (omega arith) ∙ h.soh;
    len =
        rw (same 1 (omega arith), same 2 (omega arith), same 3 (omega arith), same 4 (omega arith))
          h.len;
    bounds = h.bounds;
    room = omega (arith, h.room, size);
  }

  -- A result above 0 is the number of the bytes.
  pub counted :
      (ret : ℤ) (n : ℕ)
      → ((ret ≡ pos (0 + n)) ⊎ (ret ≡ pos 0) ⊎ (ret ≡ negsuc 0))
      → 0 < pos_part ret
      → pos_part ret ≡ n
  counted ret n (inl e) some_byte = ap pos_part e ∙ omega arith
  counted ret n (inr (inl e)) some_byte = absurd (omega (arith, ap pos_part e))
  counted ret n (inr (inr e)) some_byte = absurd (omega (arith, ap pos_part e))

  -- Reading on in a packet whose header is there.
  pub recv_body-Collects :
      (fuel : ℕ) (w : os.World) (s : Server) (p : ℕ) (c : ConnFd) (n : ℕ)
      → Taken w c
      → HasHead c
      → packet_head_len ≤ c.recv_cur_len
      → c.recv_cur_len < c.packet_len
      → n ≤ c.recv_cur_len
      → laws.signals w + 4096 < fuel
      → Collects fuel s p n (recv_body os fuel w s p c)
  recv_body-Collects fuel w s p c n t h first part before enough =
      let wanted = min (c.packet_len - c.recv_cur_len) 4096 in
      let (ret, buf, w', (bs, code, moved), cases) =
        recv_body-Frames os laws w s p c fuel part (omega (arith, h.room)) (omega arith) in
      let limit : c.recv_cur_len + wanted ≤ c.recv_total_len =
        omega (arith, h.room, t.sound.size) in
      let more : 0 < pos_part ret
          → Taken w' (record c { recv_buf = buf; recv_cur_len = c.recv_cur_len + pos_part ret }) =
        λ some_byte.
          subst (λ k. Taken w' (record c { recv_buf = buf; recv_cur_len = c.recv_cur_len + k }))
            (sym (counted ret (length bs) code some_byte))
            (Taken-more w w' c (c.recv_cur_len + wanted) bs buf t limit moved) in
      let head =
        head_kept c buf (c.recv_cur_len + pos_part ret)
          (λ i lt. moved.outside i (inl (omega arith))) moved.size h in
      elim cases [
        | inl (nothing, e) ↦ inl (w', with_conn s p (record c { recv_buf = buf }), refl, e)
        | inr (inl (less, some_byte, e)) ↦ inr (
            inl (
              w',
              with_conn s p
                  (record c { recv_buf = buf; recv_cur_len = c.recv_cur_len + pos_part ret }),
              record c { recv_buf = buf; recv_cur_len = c.recv_cur_len + pos_part ret },
              refl,
              ground arith,
              omega arith,
              (more some_byte, inr (omega arith, less, head)),
              e,
            ))
        | inr (inr (full, e)) ↦ inr (
            inr (
              w',
              with_conn s p
                  (record c { recv_buf = buf; recv_cur_len = c.recv_cur_len + pos_part ret }),
              record c { recv_buf = buf; recv_cur_len = c.recv_cur_len + pos_part ret },
              refl,
              ground arith,
              (more (omega (arith, full)), head, full),
              e,
            ))
      ]
