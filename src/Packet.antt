-- ===== src/Packet.antt =====
-- include/bin_proto.h and src/bin_proto.c: packets, built and read in a connection's buffer.
--
-- A packet is SOH, its length, the command, the sequence number, the body, and EOT; the numbers are
-- 32 bits in network order. A PacketPack points into a buffer, at `base` of a block. Its struct is
-- malloc'ed alone, so a store behind it hits memory that is not its own (`fault`).
pub mod Fields
pub mod Body
use tcpframe.Prelude.{
  ℕ, ◌+◌, ◌-◌, ◌*◌, Bool, not, ◌||◌, Option, none, some, List, [], ◌∷◌, ◌++◌, ltb, leb, ◌==◌,
  if◌then◌else◌, Run, done, fault, ◌>>=◌, Ret, ret_succ, ret_fail,
}
use tcpframe.Prelude.Int.{ℤ, sub_ℕ}
use tcpframe.Prelude.Bytes.{length, take, replicate, read_at, write_at, encode32, get32}
use tcpframe.SocketIo.{Block, fill}

abbrev pub proto_soh : ℕ
proto_soh = 0x28

abbrev pub proto_eot : ℕ
proto_eot = 0x29

-- enum PROTO_COMMS: the places of the fields, and the sizes.
abbrev pub packet_soh_pos : ℕ
packet_soh_pos = 0

abbrev pub packet_len_pos : ℕ
packet_len_pos = 1

abbrev pub packet_cmd_pos : ℕ
packet_cmd_pos = 5

abbrev pub packet_seq_pos : ℕ
packet_seq_pos = 9

abbrev pub packet_body_pos : ℕ
packet_body_pos = 13

abbrev pub packet_min_len : ℕ
packet_min_len = 18

abbrev pub packet_max_len : ℕ
packet_max_len = 1024 * 1024

abbrev pub packet_head_len : ℕ
packet_head_len = 5

pub record PacketPack : Type 0 where
  pub block : Block
  pub base : ℕ
  pub body_pos : ℕ
  pub tailer : ℕ
  pub header : ℕ
  pub total : ℕ

-- pBuffer[i]
abbrev pub byte_at : PacketPack → ℕ → ℕ
byte_at p i = p.block.cells (p.base + i)

unfoldable pub peek : Block → ℕ → Run ℕ
peek b i = if ltb i b.total then done (b.cells i) else fault

-- memcpy to &pBuffer[i]
unfoldable pub poke : PacketPack → ℕ → List ℕ → Run PacketPack
poke p i bs = do b ← fill p.block (p.base + i) bs; done (record p { block = b })

-- __CreatePackFromBuffer on a buffer that is not NULL; `found` says whether malloc finds memory.
unfoldable pub create_pack_from_buffer : Bool → Block → ℕ → ℕ → Run (Option PacketPack)
create_pack_from_buffer found block base len =
    let p : PacketPack = record {
      block = block;
      base = base;
      body_pos = packet_body_pos;
      tailer = packet_body_pos;
      header = 0;
      total = len;
    } in
    if not found then done none else do
      p1 ← poke p packet_soh_pos (proto_soh ∷ [])
      p2 ← poke p1 p1.tailer (proto_eot ∷ [])
      p3 ← poke p2 packet_len_pos (encode32 packet_min_len)
      done (some p3)

-- PacketPack2String. The returned pointer is that of the buffer.
unfoldable pub packet_pack2string : PacketPack → Run PacketPack
packet_pack2string p = do
  p1 ← poke p packet_soh_pos (proto_soh ∷ [])
  p2 ← poke p1 p1.tailer (proto_eot ∷ [])
  poke p2 packet_len_pos (encode32 (p.tailer + 1))

-- String2PacketPack on a buffer that is not NULL. Where the length is 0 the last byte would be read
-- at index -1.
unfoldable pub string2_packet_pack : Bool → Block → ℕ → ℕ → Run (Option PacketPack)
string2_packet_pack found block base len =
    let p : PacketPack = record {
      block = block;
      base = base;
      body_pos = packet_body_pos;
      tailer = len - 1;
      header = 0;
      total = len;
    } in
    let last : Run (Option PacketPack) =
      if len == 0
      then fault
      else (do e ← peek block (base + (len - 1)); done (if e == proto_eot then some p else none)) in
    if not found
    then done none
    else do s ← peek block (base + packet_soh_pos); if s == proto_soh then last else done none

-- sizeof(PacketPack), where a pointer has 8 bytes and an int32_t has 4
abbrev packet_pack_size : ℕ
packet_pack_size = 8 + 4 * 4

-- memcpy to &t_pstPacketPack[i], the struct `i` places behind the one that the pointer is of. The
-- packet is a struct alone in a block that malloc gave, whose bytes are not those of its buffer.
abbrev poke_struct : PacketPack → ℕ → List ℕ → Run PacketPack
poke_struct p i bs = do
  b ← fill (record { cells = λ _. 0; total = packet_pack_size }) (i * packet_pack_size) bs
  done p

-- SetPacketLen and SetPacketCmd store to `&t_pstPacketPack[...]`, where SetPacketSeq stores into the
-- buffer.
unfoldable pub set_packet_len : PacketPack → ℕ → Run PacketPack
set_packet_len p x = poke_struct p packet_len_pos (encode32 x)

unfoldable pub set_packet_cmd : PacketPack → ℕ → Run PacketPack
set_packet_cmd p x = poke_struct p packet_cmd_pos (encode32 x)

unfoldable pub set_packet_seq : PacketPack → ℕ → Run PacketPack
set_packet_seq p x = poke p packet_seq_pos (encode32 x)

unfoldable pub get_packet_len : PacketPack → ℕ
get_packet_len p = p.tailer + 1

unfoldable pub get_packet_cmd : PacketPack → ℕ
get_packet_cmd p = get32 p.block.cells (p.base + packet_cmd_pos)

unfoldable pub get_packet_seq : PacketPack → ℕ
get_packet_seq p = get32 p.block.cells (p.base + packet_seq_pos)

-- GetDataPos, as a place in the block
unfoldable pub get_data_pos : PacketPack → ℕ
get_data_pos p = p.base + packet_body_pos

unfoldable pub get_data_size : PacketPack → ℤ
get_data_size p = sub_ℕ p.tailer p.body_pos

-- SetDataBody of data that is not NULL
unfoldable pub set_data_body : PacketPack → List ℕ → Run (Ret × PacketPack)
set_data_body p bs =
    let write : Run (Ret × PacketPack) = do
      p1 ← poke p p.tailer bs
      let p2 = record p1 { tailer = p1.tailer + length bs }
      p3 ← poke p2 p2.tailer (proto_eot ∷ [])
      done (ret_succ, p3)
    in if length bs == 0
      then done (ret_fail, p)
      else if ltb p.total (p.tailer + length bs + 1)
      then done (ret_fail, p)
      else write

-- "ffllosb", and the literal of twenty-one letters with its final 0
abbrev greeting : List ℕ
greeting = 102 ∷ 102 ∷ 108 ∷ 108 ∷ 111 ∷ 115 ∷ 98 ∷ []

abbrev filling : List ℕ
filling = replicate 21 97 ++ 0 ∷ []

-- AddAllData2Packet. The bytes that the caller hands over are only printed: the packet gets fixed
-- ones. The second memcpy reads past its literal where more than 22 bytes are asked for, and a
-- count below 7 is negative, which memcpy takes for a huge one.
unfoldable pub add_all_data2_packet : PacketPack → ℕ → Run (Ret × PacketPack)
add_all_data2_packet p n =
    let write : Run (Ret × PacketPack) = do
      p1 ← poke p p.tailer greeting
      p2 ← poke p1 (p1.tailer + 6) (take (n - 7) filling)
      let p3 = record p2 { tailer = p2.tailer + n }
      p4 ← poke p3 p3.tailer (proto_eot ∷ [])
      done (ret_succ, p4)
    in if n == 0 then done (ret_fail, p) else if ltb n 7 || ltb 29 n then fault else write
