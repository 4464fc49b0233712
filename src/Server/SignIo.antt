-- ===== src/Server/SignIo.antt =====
-- No callback of a connection touches the stop sign.
use tcpframe.Prelude.{ℕ, ◌+◌, ◌-◌, ltb, ◌==◌, if◌then◌else◌, min, exits}
use tcpframe.Prelude.Int.{ℤ, pos, negsuc, pos_part}
use tcpframe.Prelude.Bytes.{get32}
use tcpframe.Prelude.Unless.{
  Unless, Unless-bind, Unless-if, Unless-ret, Unless-done, Unless-exits, Unless-any,
}
use tcpframe.MinHeap.{null}
use tcpframe.Os.{Os, event_writable}
use tcpframe.Reactor.{event_del}
use tcpframe.Timers.{register_timer_out_event}
use tcpframe.SocketIo.{recv_data, send_data}
use tcpframe.Packet.{packet_len_pos, packet_head_len}
use tcpframe.Conn.{ConnFd, must_resize, resize_recv_buffer_ptr}
use tcpframe.Server.Defs.{Server, with_conn, deref, destroy_conn, max_conn_timeout}
use tcpframe.Server.Packets.{process_entire_packet}
use tcpframe.Server.Io.{
  bad_head, finish_packet, recv_body, check_head, process_recv_callback, finish_send,
  process_send_callback,
}
use tcpframe.Server.Sign.{Signed, Ends, register-sign, event_del-sign, destroy_conn-sign}
use tcpframe.Server.SignPackets.{packet-sign}

module _ (n : ℕ) (os : Os) where
  open os use {World, malloc, realloc}

  module _ (fuel : ℕ) where
    finish_packet-sign :
        (w : World) (s : Server) (p : ℕ) (c : ConnFd)
        → Signed n s
        → Unless (Ends n os) (finish_packet os fuel w s p c)
    unfolding finish_packet
    finish_packet-sign w s p c e =
        Unless-bind _ _ (process_entire_packet os w s p c) _ (packet-sign n os w s p c e)
          λ (r, s1, w1) e1.
            Unless-bind _ _
              (register_timer_out_event (realloc w1) s1.base c.timeout_event max_conn_timeout) _
              (register-sign n (realloc w1) s1.base c.timeout_event max_conn_timeout e1)
              λ (r2, b) e2. Unless-bind _ _ (deref s1 p) _ (Unless-any _) λ c1 u. Unless-done _ _ e2

    recv_body-sign :
        (w : World) (s : Server) (p : ℕ) (c : ConnFd)
        → Signed n s
        → Unless (Ends n os) (recv_body os fuel w s p c)
    unfolding recv_body
    recv_body-sign w s p c e =
        let need = min (c.packet_len - c.recv_cur_len) 4096 in
        Unless-if _ (c.packet_len == 0) _ _ (destroy_conn-sign n os w s p e) (
          Unless-bind _ _ (recv_data os fuel w c.recv_buf c.fd c.recv_cur_len need) _ (Unless-any _)
            λ (ret, buf, w1) u.
              let c1 = record c { recv_buf = buf; recv_cur_len = c.recv_cur_len + pos_part ret } in
              Unless-if _ (pos_part ret == 0) _ _ (destroy_conn-sign n os w1 _ p e) (
                Unless-if _ (ltb c1.recv_cur_len c1.packet_len) _ _ (Unless-done _ _ e)
                  (finish_packet-sign w1 (with_conn s p c1) p c1 e)))

    check_head-sign :
        (w : World) (s : Server) (p : ℕ) (c : ConnFd)
        → Signed n s
        → Unless (Ends n os) (check_head os fuel w s p c)
    unfolding check_head
    check_head-sign w s p c e =
        let c1 = record c { packet_len = get32 c.recv_buf.cells packet_len_pos } in
        let (found, w0) = malloc w c1.packet_len in
        let w1 = if must_resize c1 (c1.packet_len - packet_head_len) then w0 else w in
        Unless-if _ (bad_head c1) _ _ (destroy_conn-sign n os w (with_conn s p c1) p e) (
          Unless-bind _ _ (resize_recv_buffer_ptr found c1 (c1.packet_len - packet_head_len)) _
            (Unless-any _)
            λ (fits, c2) u.
              Unless-if _ fits _ _ (recv_body-sign w1 (with_conn s p c2) p c2 e)
                (destroy_conn-sign n os w1 (with_conn s p c2) p e))

    pub recv-sign :
        (w : World) (s : Server) (p : ℕ)
        → Signed n s
        → Unless (Ends n os) (process_recv_callback os fuel w s p)
    unfolding process_recv_callback
    recv-sign w s p e = Unless-if _ (p == null) _ _ (Unless-done _ _ e) (
        Unless-bind _ _ (deref s p) _ (Unless-any _) λ c u.
          Unless-if _ (ltb c.recv_cur_len packet_head_len) _ _
            (Unless-bind _ _
              (recv_data os fuel w c.recv_buf c.fd c.recv_cur_len
                (packet_head_len - c.recv_cur_len))
              _ (Unless-any _)
              λ (ret, buf, w1) v.
                let c1 = record c {
                  recv_buf = buf;
                  recv_cur_len = c.recv_cur_len + pos_part ret;
                } in
                Unless-if _ (pos_part ret == 0) _ _ (destroy_conn-sign n os w1 _ p e) (
                  Unless-if _ (ltb c1.recv_cur_len packet_head_len) _ _ (Unless-done _ _ e)
                    (check_head-sign w1 (with_conn s p c1) p c1 e)))
            (recv_body-sign w s p c e))

    finish_send-sign :
        (w : World) (s : Server) (p : ℕ) (c : ConnFd)
        → Signed n s
        → Unless (Ends n os) (finish_send os fuel w s p c)
    unfolding finish_send
    finish_send-sign w s p c e =
        Unless-if _ (c.send_packet_len == c.send_cur_len) _ _
          (Unless-bind _ _ (event_del os w s.base c.fd event_writable) _
            (event_del-sign n os w s.base c.fd event_writable e)
            λ (r, b, w') e'. Unless-ret _ r exits _ (Unless-exits _) (Unless-done _ _ e'))
          (Unless-done _ _ e)

    sent-sign :
        (ret : ℤ) (w : World) (s : Server) (p : ℕ) (c : ConnFd)
        → Signed n s
        → Unless (Ends n os) (elim ret [
          | negsuc k ↦ destroy_conn os w s p
          | pos k ↦ finish_send os fuel w s p (record c { send_cur_len = c.send_cur_len + k })
        ])
    sent-sign (pos k) w s p c e = finish_send-sign w s p _ e
    sent-sign (negsuc k) w s p c e = destroy_conn-sign n os w s p e

    pub send-sign :
        (w : World) (s : Server) (p : ℕ)
        → Signed n s
        → Unless (Ends n os) (process_send_callback os fuel w s p)
    unfolding process_send_callback
    send-sign w s p e = Unless-if _ (p == null) _ _ (Unless-done _ _ e) (
        Unless-bind _ _ (deref s p) _ (Unless-any _) λ c u.
          Unless-if _ (c.send_packet_len == 0) _ _ (Unless-done _ _ e) (
            Unless-bind _ _
              (send_data os fuel w c.send_buf c.fd c.send_cur_len
                (c.send_packet_len - c.send_cur_len))
              _ (Unless-any _) λ (ret, w1) v. sent-sign ret w1 s p c e))
