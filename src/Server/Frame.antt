-- ===== src/Server/Frame.antt =====
-- The bytes of a packet are collected up to its end, and not beyond it; a connection is given up
-- where a call brings none.
use tcpframe.Prelude.{
  ℕ, suc, ◌+◌, ◌-◌, ◌≤◌, ◌<◌, ◌≡◌, ◌⊎◌, inl, inr, subst, ap, true, false, Bool-cases, ltb, ◌==◌,
  min, arith, done, Returns-inv,
}
use tcpframe.Prelude.Int.{ℤ, pos, pos_part}
use tcpframe.Os.{Os, OsLaws, read_again}
use tcpframe.SocketIo.{Block, recv_data, recv_loop}
use tcpframe.SocketIo.Recv.{Received, recv_data-Received}
use tcpframe.Conn.{ConnFd}
use tcpframe.Server.Defs.{Server, with_conn, destroy_conn}
use tcpframe.Server.Io.{recv_body, finish_packet}

module _ (os : Os) (laws : OsLaws os) (w : os.World) (s : Server) (p : ℕ) (c : ConnFd) where
  -- The connection with what a call of PynServerRecvData brought.
  abbrev pub advanced : Block → ℤ → ConnFd
  advanced buf ret = record c { recv_buf = buf; recv_cur_len = c.recv_cur_len + pos_part ret }

  -- How many bytes of the body the callback asks for.
  abbrev pub wanted : ℕ
  wanted = min (c.packet_len - c.recv_cur_len) 4096

  -- Collecting the rest of a packet that is not complete, with room for it: the bytes that come in
  -- are stored behind those received. Where none came the connection is destroyed, before the end
  -- of the packet it waits for more, and it hands the packet on exactly when its last byte is there.
  pub recv_body-Frames :
      (fuel : ℕ)
      → c.recv_cur_len < c.packet_len
      → c.recv_cur_len + wanted ≤ c.recv_buf.total
      → laws.signals w + wanted < fuel
      → (ret : ℤ) × (buf : Block) × (w' : os.World) × Received os laws c.fd c.recv_cur_len w
          c.recv_buf c.recv_cur_len
          (c.recv_cur_len + wanted)
          0
          (ret, buf, w')
        × (((pos_part ret ≡ 0)
              × (recv_body os fuel w s p c
                  ≡ destroy_conn os w' (with_conn s p (record c { recv_buf = buf })) p))
            ⊎ ((c.recv_cur_len + pos_part ret < c.packet_len)
                × (0 < pos_part ret)
                × (recv_body os fuel w s p c ≡ done (with_conn s p (advanced buf ret), w')))
            ⊎ ((c.recv_cur_len + pos_part ret ≡ c.packet_len)
                × (recv_body os fuel w s p c
                    ≡ finish_packet os fuel w'
                        (with_conn s p (advanced buf ret))
                        p
                        (advanced buf ret))))
  unfolding recv_body
  recv_body-Frames fuel open_packet room enough =
      let ((ret, buf, w'), e, got) =
        Returns-inv _ (recv_data os fuel w c.recv_buf c.fd c.recv_cur_len wanted)
          (recv_data-Received os laws c.fd c.recv_cur_len fuel w c.recv_buf wanted room enough) in
      let nonzero : (c.packet_len == 0) ≡ false = ground arith in
      (
        ret,
        buf,
        w',
        got,
        elim (Bool-cases (pos_part ret == 0)) [
          | inl nothing ↦ inl (ground arith, rw (nonzero, e, nothing))
          | inr some_byte ↦ elim (Bool-cases (ltb (c.recv_cur_len + pos_part ret) c.packet_len)) [
            | inl less ↦ inr (inl (ground arith, ground arith, rw (nonzero, e, some_byte, less)))
            | inr full ↦ inr (inr (bound ret buf w' got full, rw (nonzero, e, some_byte, full)))
          ]
        ],
      )
    where
      bound :
          (ret : ℤ) (buf : Block) (w' : os.World)
          → Received os laws c.fd c.recv_cur_len w c.recv_buf c.recv_cur_len
              (c.recv_cur_len + wanted)
              0
              (ret, buf, w')
          → ltb (c.recv_cur_len + pos_part ret) c.packet_len ≡ false
          → c.recv_cur_len + pos_part ret ≡ c.packet_len
      bound ret buf w' (bs, code, moved) full = ground (arith, code, moved.within)

  recv_data-again :
      (fuel : ℕ) (w' : os.World)
      → 0 < wanted
      → os.read w c.fd wanted ≡ (read_again, w')
      → recv_data os (suc fuel) w c.recv_buf c.fd c.recv_cur_len wanted
        ≡ done (pos 0, c.recv_buf, w')
  unfolding recv_data recv_loop
  recv_data-again fuel w' some_byte e =
      let asks : ltb 0 wanted ≡ true = ground arith in
      let all : wanted ≡ wanted - 0 = omega arith in
      let e' = subst (λ n. os.read w c.fd n ≡ (read_again, w')) all e in
      rw (asks, ap (λ x. x.0) e', ap (λ x. x.1) e')

  -- A connection whose header is complete, and whose body has not come in yet, is destroyed as soon
  -- as the descriptor has nothing to read.
  pub recv_body-gives_up :
      (fuel : ℕ) (w' : os.World)
      → c.recv_cur_len < c.packet_len
      → os.read w c.fd wanted ≡ (read_again, w')
      → recv_body os (suc fuel) w s p c ≡ destroy_conn os w' (with_conn s p c) p
  unfolding recv_body
  recv_body-gives_up fuel w' open_packet e =
      let nonzero : (c.packet_len == 0) ≡ false = ground arith in
      rw (nonzero, recv_data-again fuel w' (omega arith) e)
