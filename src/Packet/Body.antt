-- ===== src/Packet/Body.antt =====
-- SetDataBody, and a packet that is built, sent as a string and read back.
use tcpframe.Prelude.{
  ℕ, ◌+◌, ◌-◌, ◌≤◌, ◌<◌, ◌≡◌, refl, ◌⊎◌, inl, inr, true, false, arith, ltb, ◌==◌, done, ◌>>=◌, List,
  [], ◌∷◌, Option, some, ret_succ, ret_fail, Returns, ◌∙◌,
}
use tcpframe.Prelude.Int.{pos}
use tcpframe.Prelude.Bytes.{
  length, read_at, read_at_ext, write_at, write_at_outside, read_at-write_at,
  read_at-write_at_other, encode32, get32, get32-put32, put32,
}
use tcpframe.Packet.{
  PacketPack, byte_at, peek, proto_soh, proto_eot, packet_len_pos, set_data_body,
  packet_pack2string, string2_packet_pack, get_packet_len, get_packet_cmd, get_packet_seq,
  get_data_pos, get_data_size,
}
use tcpframe.Packet.Fields.{IsInside, SameBytes, poked, poke-done, get32_ext}

-- The body of a packet, from its start to the byte before EOT.
abbrev pub body : PacketPack → List ℕ
body p = read_at p.block.cells (get_data_pos p) (p.tailer - 13)

write_one : (m : ℕ → ℕ) (at b : ℕ) → write_at m at (b ∷ []) at ≡ b
unfolding write_at
write_one m at b = ground arith

-- What an append leaves: the old bytes, the new ones behind them, and EOT.
pub record Appended (p : PacketPack) (bs : List ℕ) (q : PacketPack) : Type 0 where
  pub tailer : q.tailer ≡ p.tailer + length bs
  pub stored : read_at q.block.cells (p.base + p.tailer) (length bs) ≡ bs
  pub before : SameBytes p q 0 p.tailer
  pub eot : byte_at q q.tailer ≡ proto_eot
  pub base : q.base ≡ p.base
  pub total : q.total ≡ p.total
  pub body_pos : q.body_pos ≡ p.body_pos
  pub inside : IsInside q

-- SetDataBody of at least one byte, with room for it and for EOT, succeeds: the data stand where EOT stood,
-- EOT follows them, and what stood before is as it was.
pub set_data_body-Appended :
    (p : PacketPack) (bs : List ℕ)
    → IsInside p
    → 0 < length bs
    → p.tailer + length bs < p.total
    → Returns (λ (r, q). (r ≡ ret_succ) × Appended p bs q) (set_data_body p bs)
unfolding set_data_body
set_data_body-Appended p bs v some_byte room =
    let filled : (length bs == 0) ≡ false = ground arith in
    let fits : ltb p.total (p.tailer + length bs + 1) ≡ false = ground arith in
    let p2 = record (poked p p.tailer bs) { tailer = p.tailer + length bs } in
    rw
      (
        filled,
        fits,
        poke-done p p.tailer bs (omega (arith, v.fits)),
        poke-done p2 p2.tailer (proto_eot ∷ []) (omega (arith, v.fits)),
      )
      (
        refl,
        record {
          tailer = refl;
          stored =
              read_at-write_at_other _ _ (proto_eot ∷ []) _ _ (inl (omega arith))
              ∙ read_at-write_at p.block.cells (p.base + p.tailer) bs;
          before = λ i q r.
              write_at_outside _ _ (proto_eot ∷ []) _ (inl (omega arith))
              ∙ write_at_outside _ _ bs _ (inl (omega arith));
          eot = write_one _ _ proto_eot;
          base = refl;
          total = refl;
          body_pos = refl;
          inside = record { fits = v.fits; body = omega (arith, v.body); tail = room };
        },
      )

-- Where there is no room, or nothing to store, SetDataBody fails and changes nothing.
pub set_data_body-fails :
    (p : PacketPack) (bs : List ℕ)
    → (length bs ≡ 0) ⊎ (p.total ≤ p.tailer + length bs)
    → set_data_body p bs ≡ done (ret_fail, p)
unfolding set_data_body
set_data_body-fails p bs h = ground arith

-- What String2PacketPack reads from the string of a packet.
pub record ReadBack (p : PacketPack) (found : Option PacketPack) : Type 0 where
  pub pack : PacketPack
  pub parsed : found ≡ some pack
  pub len : get_packet_len pack ≡ get_packet_len p
  pub len_field : get32 pack.block.cells (pack.base + packet_len_pos) ≡ get_packet_len p
  pub cmd : get_packet_cmd pack ≡ get_packet_cmd p
  pub seq : get_packet_seq pack ≡ get_packet_seq p
  pub size : get_data_size pack ≡ pos (p.tailer - 13)
  pub same_body : body pack ≡ body p

module _ (p : PacketPack) (v : IsInside p) where
  abbrev stringed : PacketPack
  stringed =
      poked (poked (poked p 0 (proto_soh ∷ [])) p.tailer (proto_eot ∷ [])) packet_len_pos
        (encode32 (p.tailer + 1))

  stringed_lem : packet_pack2string p ≡ done stringed
  unfolding packet_pack2string encode32
  stringed_lem = rw (
    poke-done p 0 (proto_soh ∷ []) (omega (arith, v.fits, v.tail)),
    poke-done (poked p 0 (proto_soh ∷ [])) p.tailer (proto_eot ∷ [])
        (omega (arith, v.fits, v.tail)),
    poke-done (poked (poked p 0 (proto_soh ∷ [])) p.tailer (proto_eot ∷ [])) packet_len_pos
        (encode32 (p.tailer + 1)) (omega (arith, v.fits, v.tail, v.body)),
  )

  starts : byte_at stringed 0 ≡ proto_soh
  unfolding encode32
  starts =
      write_at_outside _ _ (encode32 (p.tailer + 1)) _ (inl (omega arith))
      ∙ write_at_outside _ _ (proto_eot ∷ []) _ (inl (omega (arith, v.body)))
      ∙ write_one _ _ proto_soh

  ends : byte_at stringed p.tailer ≡ proto_eot
  unfolding encode32
  ends =
      write_at_outside _ _ (encode32 (p.tailer + 1)) _ (inr (omega (arith, v.body)))
      ∙ write_one _ _ proto_eot

  carries_len : p.tailer + 1 < 4294967296 → get32 stringed.block.cells (p.base + 1) ≡ p.tailer + 1
  unfolding put32
  carries_len small = get32-put32 _ (p.base + packet_len_pos) (p.tailer + 1) small

  inner_same :
      (i : ℕ) → p.base + 5 ≤ i → i < p.base + p.tailer → stringed.block.cells i ≡ p.block.cells i
  unfolding encode32
  inner_same i q r =
      write_at_outside _ _ (encode32 (p.tailer + 1)) i (inr (omega arith))
      ∙ write_at_outside _ _ (proto_eot ∷ []) i (inl (omega arith))
      ∙ write_at_outside _ _ (proto_soh ∷ []) i (inr (omega arith))

  abbrev parsed : PacketPack
  parsed = record stringed { body_pos = 13; header = 0; total = p.tailer + 1 }

  parses :
      string2_packet_pack true stringed.block stringed.base (p.tailer + 1)
      ≡ done (some (record parsed { tailer = p.tailer + 1 - 1 }))
  unfolding string2_packet_pack peek
  parses =
      let e : p.tailer + 1 - 1 ≡ p.tailer = omega arith in
      ground (arith, e, starts, ends, v.fits, v.tail)

-- A packet that PacketPack2String writes is read back by String2PacketPack with its length, its
-- numbers and its body, and the length stands in the string.
pub packet_pack2string-ReadBack :
    (p : PacketPack)
    → IsInside p
    → p.tailer + 1 < 4294967296
    → Returns
        (ReadBack p)
        (packet_pack2string p >>= λ q. string2_packet_pack true q.block q.base (get_packet_len q))
unfolding get_packet_len get_packet_cmd get_packet_seq get_data_pos get_data_size
packet_pack2string-ReadBack p v small =
    let e : p.tailer + 1 - 1 ≡ p.tailer = omega arith in
    rw (stringed_lem p v, parses p v, e)
      (record {
        pack = parsed p v;
        parsed = refl;
        len = refl;
        len_field = carries_len p v small;
        cmd = get32_ext _ _ _ (λ j q r. inner_same p v j (omega arith) (omega (arith, v.body)));
        seq = get32_ext _ _ _ (λ j q r. inner_same p v j (omega arith) (omega (arith, v.body)));
        size = ground (arith, v.body);
        same_body =
            read_at_ext _ _ _ _ (λ j q r. inner_same p v j (omega arith) (omega (arith, v.body)));
      })
