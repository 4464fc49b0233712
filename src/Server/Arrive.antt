-- ===== src/Server/Arrive.antt =====
-- ProcessRecvCallback, once and over any number of its calls, up to the end of a packet.
use tcpframe.Prelude.{
  ℕ, ◌+◌, ◌-◌, ◌<◌, ◌≡◌, refl, sym, subst, ◌≢◌, inl, inr, Bool-cases, true, false, List, ltb, some,
  ◌==◌, arith, Returns-inv,
}
use tcpframe.Prelude.Int.{pos_part}
use tcpframe.Prelude.Bytes.{length}
use tcpframe.MinHeap.{null}
use tcpframe.Os.{Os, OsLaws}
use tcpframe.SocketIo.{recv_data}
use tcpframe.SocketIo.Recv.{recv_data-Received}
use tcpframe.Packet.{packet_head_len}
use tcpframe.Conn.{ConnFd}
use tcpframe.Server.Defs.{Server, with_conn}
use tcpframe.Server.Io.{process_recv_callback}
use tcpframe.Server.Sending.{opens}
use tcpframe.Server.Collect.{Taken, Coming, Collects, Taken-more, counted, recv_body-Collects}
use tcpframe.Server.Header.{check_head-Collects}

module _ (os : Os) (laws : OsLaws os) (fd : ℕ) (stream : List ℕ) where
  -- ProcessRecvCallback of a connection whose next packet is coming in, or has not begun: the call
  -- destroys the connection, or leaves it with more bytes of the packet, or comes to the end of the
  -- packet and handles it, with the bytes of the stream in the buffer, in order and none lost.
  pub process_recv_callback-Collects :
      (fuel : ℕ) (w : os.World) (s : Server) (p : ℕ) (c : ConnFd)
      → p ≢ null
      → s.conns p ≡ some c
      → Coming os laws fd stream w c
      → laws.signals w + 4096 < fuel
      → Collects os laws fd stream fuel s p c.recv_cur_len (process_recv_callback os fuel w s p)
  unfolding process_recv_callback
  process_recv_callback-Collects fuel w s p c solid live (t, phase) enough =
      let nonnull : (p == null) ≡ false = ground arith in
      elim phase [
        | inr (first, part, head) ↦
            let body : ltb c.recv_cur_len packet_head_len ≡ false = ground arith in
            rw (nonnull, opens s p c live, body)
              (recv_body-Collects os laws fd stream fuel w s p c c.recv_cur_len t head first part
                (omega arith) enough)
        | inl (missing, large) ↦
            let short : ltb c.recv_cur_len packet_head_len ≡ true = ground arith in
            let need = packet_head_len - c.recv_cur_len in
            let ((ret, buf, w'), e, (bs, code, moved)) =
              Returns-inv _ (recv_data os fuel w c.recv_buf c.fd c.recv_cur_len need) (
                recv_data-Received os laws c.fd c.recv_cur_len fuel w c.recv_buf need
                  (omega (arith, t.sound.size)) (omega arith)) in
            let c1 = record c { recv_buf = buf; recv_cur_len = c.recv_cur_len + pos_part ret } in
            let more : 0 < pos_part ret → Taken os laws fd stream w' c1 = λ some_byte.
              subst
                (λ k.
                  Taken os laws fd stream w'
                    (record c { recv_buf = buf; recv_cur_len = c.recv_cur_len + k }))
                (sym (counted os laws fd stream ret (length bs) code some_byte))
                (Taken-more os laws fd stream w w' c (c.recv_cur_len + need) bs buf t (omega arith)
                  moved) in
            elim (Bool-cases (pos_part ret == 0)) [
              | inl nothing ↦
                  rw (nonnull, opens s p c live, short, e, nothing)
                    (inl (w', with_conn s p (record c { recv_buf = buf }), refl, refl))
              | inr some_bytes ↦
                  let some_byte : 0 < pos_part ret = ground arith in
                  elim (Bool-cases (ltb c1.recv_cur_len packet_head_len)) [
                    | inl less ↦
                        rw (nonnull, opens s p c live, short, e, some_bytes, less)
                          (inr (
                            inl (
                              w',
                              with_conn s p c1,
                              c1,
                              refl,
                              ground arith,
                              omega arith,
                              (more some_byte, inl (ground arith, large)),
                              refl,
                            )))
                    | inr full ↦
                        let exactly : c1.recv_cur_len ≡ packet_head_len = ground (
                          arith,
                          counted os laws fd stream ret (length bs) code some_byte,
                          moved.within,
                        ) in
                        rw (nonnull, opens s p c live, short, e, some_bytes, full)
                          (check_head-Collects os laws fd stream fuel w' (with_conn s p c1) p c1
                            c.recv_cur_len (more some_byte) exactly missing
                            (omega (arith, moved.calmer)))
                  ]
            ]
      ]
