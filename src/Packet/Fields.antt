-- ===== src/Packet/Fields.antt =====
-- The numbers of a packet are stored and read back, and stand apart.
use tcpframe.Prelude.{ℕ, ◌+◌, ◌≤◌, ◌<◌, ◌≡◌, ◌⊎◌, inl, inr, arith, done, List, Returns}
use tcpframe.Prelude.Bytes.{length, write_at, write_at_outside, encode32, get32, put32, get32-put32}
use tcpframe.SocketIo.{fill}
use tcpframe.Packet.{
  PacketPack, byte_at, poke, packet_seq_pos, set_packet_seq, get_packet_cmd, get_packet_seq,
}

-- The pack lies in its block.
pub record IsInside (p : PacketPack) : Type 0 where
  pub fits : p.base + p.total ≤ p.block.total
  pub body : 13 ≤ p.tailer
  pub tail : p.tailer < p.total

abbrev pub poked : PacketPack → ℕ → List ℕ → PacketPack
poked p i bs = record p {
  block = record p.block { cells = write_at p.block.cells (p.base + i) bs };
}

pub poke-done :
    (p : PacketPack) (i : ℕ) (bs : List ℕ)
    → p.base + i + length bs ≤ p.block.total
    → poke p i bs ≡ done (poked p i bs)
unfolding poke fill
poke-done p i bs fits = ground arith

pub get32_ext :
    (m m' : ℕ → ℕ) (i : ℕ) → ((j : ℕ) → i ≤ j → j < i + 4 → m' j ≡ m j) → get32 m' i ≡ get32 m i
unfolding get32
get32_ext m m' i same = ground (arith, same i, same (i + 1), same (i + 2), same (i + 3))

-- A word is not changed by a store elsewhere.
pub get32_other :
    (m : ℕ → ℕ) (at : ℕ) (bs : List ℕ) (i : ℕ)
    → (i + 4 ≤ at) ⊎ (at + length bs ≤ i)
    → get32 (write_at m at bs) i ≡ get32 m i
get32_other m at bs i apart =
    get32_ext m (write_at m at bs) i λ j p q. write_at_outside m at bs j (ground arith)

-- The bytes of a region are those of the other packet.
abbrev pub SameBytes : PacketPack → PacketPack → ℕ → ℕ → Type 0
SameBytes p q from n = (i : ℕ) → from ≤ i → i < from + n → byte_at q i ≡ byte_at p i

-- A sequence number that fits 32 bits is read back after SetPacketSeq, which changes no byte but
-- its four.
pub set_packet_seq_lem :
    (p : PacketPack) (x : ℕ)
    → IsInside p
    → x < 4294967296
    → Returns
        (λ q.
          (get_packet_seq q ≡ x)
          × (get_packet_cmd q ≡ get_packet_cmd p)
          × SameBytes p q 0 packet_seq_pos
          × ((n : ℕ) → SameBytes p q 13 n)
          × IsInside q)
        (set_packet_seq p x)
unfolding set_packet_seq get_packet_seq get_packet_cmd encode32 put32
set_packet_seq_lem p x v lt =
    rw (poke-done p packet_seq_pos (encode32 x) (omega (arith, v.fits, v.body, v.tail))) (
      get32-put p x lt,
      get32_other _ _ (encode32 x) _ (inl (omega arith)),
      λ i q r. write_at_outside _ _ (encode32 x) _ (inl (omega arith)),
      λ n i q r. write_at_outside _ _ (encode32 x) _ (inr (omega arith)),
      record { fits = v.fits; body = v.body; tail = v.tail },
    )
  where
    get32-put :
        (p : PacketPack) (x : ℕ)
        → x < 4294967296
        → get_packet_seq (poked p packet_seq_pos (encode32 x)) ≡ x
    get32-put p x lt = get32-put32 p.block.cells (p.base + packet_seq_pos) x lt
