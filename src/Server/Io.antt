-- ===== src/Server/Io.antt =====
-- ProcessRecvCallback and ProcessSendCallback of src/socket_util.c.
use tcpframe.Prelude.{
  ℕ, ◌+◌, ◌-◌, ◌^◌, Bool, not, ◌||◌, ltb, leb, ◌==◌, if◌then◌else◌, min, Run, done, exits, ◌>>=◌,
  ret_succ, ret_fail,
}
use tcpframe.Prelude.Int.{pos, negsuc, pos_part}
use tcpframe.Prelude.Bytes.{get32}
use tcpframe.Os.{Os, event_writable}
use tcpframe.Reactor.{event_del}
use tcpframe.MinHeap.{null}
use tcpframe.SocketIo.{recv_data, send_data}
use tcpframe.Packet.{proto_soh, packet_len_pos, packet_body_pos, packet_max_len, packet_head_len}
use tcpframe.Timers.{register_timer_out_event}
use tcpframe.Conn.{ConnFd, must_resize, resize_recv_buffer_ptr}
use tcpframe.Server.Defs.{Server, with_conn, deref, destroy_conn, max_conn_timeout}
use tcpframe.Server.Packets.{process_entire_packet}

-- The tests of the header. A length of 2 ^ 31 or more is negative as an int.
unfoldable pub bad_head : ConnFd → Bool
bad_head c =
    not (c.recv_buf.cells 0 == proto_soh)
    || (leb c.packet_len packet_body_pos || leb (2 ^ 31) c.packet_len)
    || ltb packet_max_len c.packet_len

module _ (os : Os) (fuel : ℕ) where
  open os use {World, malloc, realloc}

  -- The end of ProcessRecvCallback for a whole packet.
  unfoldable pub finish_packet : World → Server → ℕ → ConnFd → Run (Server × World)
  finish_packet w s p c = do
    (r, s1, w1) ← process_entire_packet os w s p c
    (r2, b) ← register_timer_out_event (realloc w1) s1.base c.timeout_event max_conn_timeout
    c1 ← deref s1 p
    done (record (with_conn s1 p (record c1 { recv_cur_len = 0; packet_len = 0 })) { base = b }, w1)

  -- ProcessRecvCallback once the header is there: at most 4096 bytes of the rest.
  unfoldable pub recv_body : World → Server → ℕ → ConnFd → Run (Server × World)
  recv_body w s p c =
      let need = min (c.packet_len - c.recv_cur_len) 4096 in
      let receive : Run (Server × World) = do
        (ret, buf, w1) ← recv_data os fuel w c.recv_buf c.fd c.recv_cur_len need
        let c1 = record c { recv_buf = buf; recv_cur_len = c.recv_cur_len + pos_part ret }
        let kept = done (with_conn s p c1, w1)
        if pos_part ret == 0
            then destroy_conn os w1 (with_conn s p (record c { recv_buf = buf })) p
            else if ltb c1.recv_cur_len c1.packet_len
            then kept
            else finish_packet w1 (with_conn s p c1) p c1
      in if c.packet_len == 0 then destroy_conn os w s p else receive

  -- The header has just been read: its length is taken and tested, and the buffer is made to fit.
  unfoldable pub check_head : World → Server → ℕ → ConnFd → Run (Server × World)
  check_head w s p c =
      let c1 = record c { packet_len = get32 c.recv_buf.cells packet_len_pos } in
      let (found, w0) = malloc w c1.packet_len in
      let w1 = if must_resize c1 (c1.packet_len - packet_head_len) then w0 else w in
      let go : Run (Server × World) = do
        (fits, c2) ← resize_recv_buffer_ptr found c1 (c1.packet_len - packet_head_len)
        if fits
            then recv_body w1 (with_conn s p c2) p c2
            else destroy_conn os w1 (with_conn s p c2) p
      in if bad_head c1 then destroy_conn os w (with_conn s p c1) p else go

  -- ProcessRecvCallback
  unfoldable pub process_recv_callback : World → Server → ℕ → Run (Server × World)
  process_recv_callback w s p =
      let work : Run (Server × World) = do
        c ← deref s p
        let head : Run (Server × World) = do
          (ret, buf, w1) ←
              recv_data os fuel w c.recv_buf c.fd c.recv_cur_len (packet_head_len - c.recv_cur_len)
          let c1 = record c { recv_buf = buf; recv_cur_len = c.recv_cur_len + pos_part ret }
          if pos_part ret == 0
              then destroy_conn os w1 (with_conn s p (record c { recv_buf = buf })) p
              else if ltb c1.recv_cur_len packet_head_len
              then done (with_conn s p c1, w1)
              else check_head w1 (with_conn s p c1) p c1
        if ltb c.recv_cur_len packet_head_len then head else recv_body w s p c
      in if p == null then done (s, w) else work

  -- The end of ProcessSendCallback: where all is sent the connection is no longer watched for
  -- writing.
  unfoldable pub finish_send : World → Server → ℕ → ConnFd → Run (Server × World)
  finish_send w s p c =
      let all_sent : Run (Server × World) = do
        (r, b, w') ← event_del os w s.base c.fd event_writable
        elim r [
          | ret_fail ↦ exits
          | ret_succ ↦ done (
            record (with_conn s p (record c { send_packet_len = 0; send_cur_len = 0 })) {
              base = b;
            },
            w',
          )
        ]
      in if c.send_packet_len == c.send_cur_len then all_sent else done (with_conn s p c, w)

  -- ProcessSendCallback
  unfoldable pub process_send_callback : World → Server → ℕ → Run (Server × World)
  process_send_callback w s p =
      let work : Run (Server × World) = do
        c ← deref s p
        let send : Run (Server × World) = do
          (ret, w1) ←
              send_data os fuel w c.send_buf c.fd c.send_cur_len
                (c.send_packet_len - c.send_cur_len)
          elim ret [
            | negsuc n ↦ destroy_conn os w1 s p
            | pos n ↦ finish_send w1 s p (record c { send_cur_len = c.send_cur_len + n })
          ]
        if c.send_packet_len == 0 then done (s, w) else send
      in if p == null then done (s, w) else work
