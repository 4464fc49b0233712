-- ===== src/Server/Packets.antt =====
-- The packet handlers of src/bin_proto.c, and AppendPktToBuff of src/socket_util.c.
use tcpframe.Prelude.{
  ℕ, ◌+◌, ◌-◌, leb, ◌==◌, if◌then◌else◌, none, some, Run, done, exits, fault, ◌>>=◌, Ret, ret_succ,
  ret_fail,
}
use tcpframe.Prelude.Bytes.{read_at}
use tcpframe.Os.{Os, event_writable}
use tcpframe.Reactor.{process_send, event_add}
use tcpframe.SocketIo.{fill}
use tcpframe.Packet.{
  PacketPack, string2_packet_pack, create_pack_from_buffer, packet_pack2string, set_packet_cmd,
  set_packet_seq, get_packet_cmd, get_packet_seq, get_packet_len, add_all_data2_packet,
}
use tcpframe.Conn.{ConnFd, copy_out, must_enlarge, resize_send_buffer_ptr}
use tcpframe.Server.Defs.{Server, with_conn}

abbrev pub cmd_test_value : ℕ
cmd_test_value = 0x2900

abbrev pub cmd_test_echo : ℕ
cmd_test_echo = 0x3000

module _ (os : Os) where
  open os use {World, malloc}

  -- Watching a connection for writing, which SendBackEcho and AppendPktToBuff do last.
  unfoldable pub watch_write : World → Server → ℕ → ConnFd → Run (Ret × Server × World)
  watch_write w s p c = do
    (r, b, w') ← event_add os w s.base c.fd event_writable process_send p
    elim r [
      | ret_fail ↦ exits
      | ret_succ ↦ done (ret_succ, record (with_conn s p c) { base = b }, w')
    ]

  -- SendBackEcho: the packet is copied to the start of the send buffer, whatever its length.
  unfoldable pub send_back_echo : World → Server → ℕ → ConnFd → Run (Ret × Server × World)
  send_back_echo w s p c = do
    sent ← copy_out c.recv_buf 0 c.packet_len c.send_buf
    watch_write w s p (record c { send_buf = sent; send_packet_len = c.packet_len })

  -- AppendPktToBuff with the data that stand at the start of the send buffer (its argument NULL).
  unfoldable pub append_pkt_to_buff : World → Server → ℕ → ConnFd → ℕ → Run (Ret × Server × World)
  append_pkt_to_buff w s p c len = do
    sent ←
        if leb len c.send_buf.total
        then fill c.send_buf c.send_packet_len (read_at c.send_buf.cells 0 len)
        else fault
    watch_write w s p (record c { send_buf = sent; send_packet_len = c.send_packet_len + len })

  -- SendPacket2Client
  unfoldable pub send_packet2_client :
      World → Server → ℕ → ConnFd → PacketPack → Run (Ret × Server × World)
  send_packet2_client w s p c pack = do
    pack' ← packet_pack2string pack
    append_pkt_to_buff w s p (record c { send_buf = pack'.block }) (get_packet_len pack')

  -- ProcessTestBinProtocol
  unfoldable pub process_test_bin_protocol :
      World → Server → ℕ → ConnFd → PacketPack → Run (Ret × Server × World)
  process_test_bin_protocol w s p c recv =
      let length = recv.tailer - recv.body_pos + 128 in
      let (found, w0) = malloc w 4 in
      let w1 = if must_enlarge c length then w0 else w in
      let (found_pack, w2) = malloc w1 1 in
      do
        (at, c1) ← resize_send_buffer_ptr found c length
        made ← create_pack_from_buffer found_pack c1.send_buf at length
        elim made [
          | none ↦ done (ret_fail, with_conn s p c1, w2)
          | some pack ↦ do
            pack1 ← set_packet_cmd pack (get_packet_cmd recv)
            pack2 ← set_packet_seq pack1 (get_packet_seq recv)
            (r, pack3) ← add_all_data2_packet pack2 length
            elim r [
              | ret_fail ↦ done (ret_fail, with_conn s p c1, w2)
              | ret_succ ↦ send_packet2_client w2 s p c1 pack3
            ]
        ]

  -- The switch of ProcessEntirePacket. What the handlers return is not looked at.
  unfoldable pub process_command :
      World → Server → ℕ → ConnFd → PacketPack → Run (Ret × Server × World)
  process_command w s p c pack =
      let cmd = get_packet_cmd pack in
      let test : Run (Ret × Server × World) =
        process_test_bin_protocol w s p c pack >>= λ (r, s', w'). done (ret_succ, s', w') in
      let echo : Run (Ret × Server × World) =
        send_back_echo w s p c >>= λ (r, s', w'). done (ret_succ, s', w') in
      if cmd == cmd_test_value
      then test
      else if cmd == cmd_test_echo
      then echo
      else done (ret_fail, s, w)

  -- ProcessEntirePacket of the bytes in the receive buffer
  unfoldable pub process_entire_packet : World → Server → ℕ → ConnFd → Run (Ret × Server × World)
  process_entire_packet w s p c =
      let (found, w') = malloc w 1 in
      do
        pack ← string2_packet_pack found c.recv_buf 0 c.recv_cur_len
        elim pack [ none ↦ done (ret_fail, s, w') | some k ↦ process_command w' s p c k ]
