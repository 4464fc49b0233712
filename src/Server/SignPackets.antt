-- ===== src/Server/SignPackets.antt =====
-- No handler of a packet touches the stop sign.
use tcpframe.Prelude.{
  ℕ, ◌+◌, ◌-◌, leb, ◌==◌, if◌then◌else◌, Option, none, some, Run, done, fault, exits, Ret, ret_fail,
}
use tcpframe.Prelude.Bytes.{read_at}
use tcpframe.Prelude.Unless.{
  Unless, Unless-bind, Unless-if, Unless-ret, Unless-done, Unless-exits, Unless-any,
}
use tcpframe.Os.{Os, event_writable}
use tcpframe.Reactor.{process_send, event_add}
use tcpframe.SocketIo.{fill}
use tcpframe.Packet.{
  PacketPack, string2_packet_pack, create_pack_from_buffer, packet_pack2string, set_packet_cmd,
  set_packet_seq, get_packet_cmd, get_packet_seq, add_all_data2_packet,
}
use tcpframe.Conn.{ConnFd, copy_out, must_enlarge, resize_send_buffer_ptr}
use tcpframe.Server.Defs.{Server, with_conn}
use tcpframe.Server.Packets.{
  cmd_test_value, cmd_test_echo, watch_write, send_back_echo, append_pkt_to_buff,
  send_packet2_client, process_test_bin_protocol, process_command, process_entire_packet,
}
use tcpframe.Server.Sign.{Signed, EndsRet, event_add-sign}

module _ (n : ℕ) (os : Os) where
  open os use {World, malloc, realloc}

  watch_write-sign :
      (w : World) (s : Server) (p : ℕ) (c : ConnFd)
      → Signed n s
      → Unless (EndsRet n os) (watch_write os w s p c)
  unfolding watch_write
  watch_write-sign w s p c e =
      Unless-bind _ _ (event_add os w s.base c.fd event_writable process_send p) _
        (event_add-sign n os w s.base c.fd event_writable process_send p e)
        λ (r, b, w') e'. Unless-ret _ r exits _ (Unless-exits _) (Unless-done _ _ e')

  send_back_echo-sign :
      (w : World) (s : Server) (p : ℕ) (c : ConnFd)
      → Signed n s
      → Unless (EndsRet n os) (send_back_echo os w s p c)
  unfolding send_back_echo
  send_back_echo-sign w s p c e =
      Unless-bind _ _ (copy_out c.recv_buf 0 c.packet_len c.send_buf) _ (Unless-any _)
        λ sent u. watch_write-sign w s p _ e

  append-sign :
      (w : World) (s : Server) (p : ℕ) (c : ConnFd) (len : ℕ)
      → Signed n s
      → Unless (EndsRet n os) (append_pkt_to_buff os w s p c len)
  unfolding append_pkt_to_buff
  append-sign w s p c len e =
      Unless-bind _ _
        (if leb len c.send_buf.total
          then fill c.send_buf c.send_packet_len (read_at c.send_buf.cells 0 len)
          else fault)
        _ (Unless-any _) λ sent u. watch_write-sign w s p _ e

  send_packet2_client-sign :
      (w : World) (s : Server) (p : ℕ) (c : ConnFd) (pack : PacketPack)
      → Signed n s
      → Unless (EndsRet n os) (send_packet2_client os w s p c pack)
  unfolding send_packet2_client
  send_packet2_client-sign w s p c pack e =
      Unless-bind _ _ (packet_pack2string pack) _ (Unless-any _) λ pack' u. append-sign w s p _ _ e

  -- What ProcessTestBinProtocol does with the packet that it has made.
  answer-sign :
      (made : Option PacketPack) (w : World) (s : Server)
      (f : PacketPack → Run (Ret × Server × World))
      → Signed n s
      → ((k : PacketPack) → Unless (EndsRet n os) (f k))
      → Unless (EndsRet n os) (elim made [ none ↦ done (ret_fail, s, w) | some k ↦ f k ])
  answer-sign none w s f e each = Unless-done _ _ e
  answer-sign (some k) w s f e each = each k

  test-sign :
      (w : World) (s : Server) (p : ℕ) (c : ConnFd) (recv : PacketPack)
      → Signed n s
      → Unless (EndsRet n os) (process_test_bin_protocol os w s p c recv)
  unfolding process_test_bin_protocol
  test-sign w s p c recv e =
      let length = recv.tailer - recv.body_pos + 128 in
      let w1 = if must_enlarge c length then (malloc w 4).1 else w in
      let (found_pack, w2) = malloc w1 1 in
      Unless-bind _ _ (resize_send_buffer_ptr (malloc w 4).0 c length) _ (Unless-any _)
        λ (at, c1) u.
          Unless-bind _ _ (create_pack_from_buffer found_pack c1.send_buf at length) _
            (Unless-any _)
            λ made v. answer-sign made w2 (with_conn s p c1) _ e λ pack.
              Unless-bind _ _ (set_packet_cmd pack (get_packet_cmd recv)) _ (Unless-any _)
                λ pack1 u1.
                  Unless-bind _ _ (set_packet_seq pack1 (get_packet_seq recv)) _ (Unless-any _)
                    λ pack2 u2.
                      Unless-bind _ _ (add_all_data2_packet pack2 length) _ (Unless-any _)
                        λ (r, pack3) u3.
                          Unless-ret _ r (done (ret_fail, with_conn s p c1, w2)) _
                            (Unless-done _ _ e) (send_packet2_client-sign w2 s p c1 pack3 e)

  command-sign :
      (w : World) (s : Server) (p : ℕ) (c : ConnFd) (pack : PacketPack)
      → Signed n s
      → Unless (EndsRet n os) (process_command os w s p c pack)
  unfolding process_command
  command-sign w s p c pack e =
      Unless-if _ (get_packet_cmd pack == cmd_test_value) _ _
        (Unless-bind _ _ (process_test_bin_protocol os w s p c pack) _ (test-sign w s p c pack e)
          λ (r, s', w') e'. Unless-done _ _ e')
        (Unless-if _ (get_packet_cmd pack == cmd_test_echo) _ _
          (Unless-bind _ _ (send_back_echo os w s p c) _ (send_back_echo-sign w s p c e)
            λ (r, s', w') e'. Unless-done _ _ e')
          (Unless-done _ _ e))

  pub packet-sign :
      (w : World) (s : Server) (p : ℕ) (c : ConnFd)
      → Signed n s
      → Unless (EndsRet n os) (process_entire_packet os w s p c)
  unfolding process_entire_packet
  packet-sign w s p c e =
      Unless-bind _ _ (string2_packet_pack (malloc w 1).0 c.recv_buf 0 c.recv_cur_len) _
        (Unless-any _)
        λ pack u. answer-sign pack (malloc w 1).1 s _ e λ k. command-sign (malloc w 1).1 s p c k e
