-- ===== src/Tests/Packet.antt =====
-- A packet with a body of three bytes, at place 4 of a buffer.
use tcpframe.Prelude.{true, arith, ◌>>=◌, Returns}
use tcpframe.SocketIo.{Block}
use tcpframe.Packet.{PacketPack, packet_pack2string, string2_packet_pack, get_packet_len}
use tcpframe.Packet.Fields.{IsInside}
use tcpframe.Packet.Body.{ReadBack, packet_pack2string-ReadBack}

abbrev ascending : Block
ascending = record { cells = λ i. i; total = 64 }

abbrev sample : PacketPack
sample = record { block = ascending; base = 4; body_pos = 13; tailer = 16; header = 0; total = 40 }

sample-IsInside : IsInside sample
sample-IsInside = record { fits = omega arith; body = omega arith; tail = omega arith }

packet_pack2string-ReadBack_example :
    Returns (ReadBack sample) (
      packet_pack2string sample >>= λ q. string2_packet_pack true q.block q.base (get_packet_len q))
packet_pack2string-ReadBack_example =
    packet_pack2string-ReadBack sample sample-IsInside (omega arith)
