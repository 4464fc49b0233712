-- ===== src/Conn/Send.antt =====
-- ResizeSendBufferPtr keeps the unsent bytes while the noted size suffices, and faults beyond it.
use tcpframe.Prelude.{
  ℕ, suc, ◌+◌, ◌-◌, ◌≤◌, ◌<◌, ◌≡◌, refl, Bool, true, false, inl, inr, Bool-cases, List, ltb, leb,
  arith, fault, Returns,
}
use tcpframe.Prelude.Bytes.{length-read_at, read_at}
use tcpframe.SocketIo.{fill}
use tcpframe.Conn.{ConnFd, new_block, copy_out, must_enlarge, resize_send_buffer_ptr}
use tcpframe.Conn.Recv.{grow_cases, copy_out-done, kept_bytes}

-- The send buffer as it was allocated, with the unsent bytes inside it.
pub record IsSendable (c : ConnFd) : Type 0 where
  pub some_byte : 0 < c.send_total_len
  pub size : c.send_buf.total ≡ c.send_total_len
  pub sent : c.send_cur_len ≤ c.send_packet_len
  pub within : c.send_packet_len ≤ c.send_total_len

-- The bytes that are still to be sent.
abbrev pub unsent : ConnFd → List ℕ
unsent c = read_at c.send_buf.cells c.send_cur_len (c.send_packet_len - c.send_cur_len)

-- While ResizeSendBufferPtr does not come to its malloc it returns: the place that it returns is
-- behind the unsent bytes, which are kept, and has room for what was asked for.
pub resize_send_buffer_ptr-keeps :
    (found : Bool) (c : ConnFd) (need : ℕ)
    → IsSendable c
    → must_enlarge c need ≡ false
    → Returns
        (λ (at, c').
          (at ≡ c'.send_packet_len)
          × (at + need ≤ c'.send_buf.total)
          × (unsent c' ≡ unsent c)
          × IsSendable c')
        (resize_send_buffer_ptr found c need)
unfolding resize_send_buffer_ptr must_enlarge
resize_send_buffer_ptr-keeps found c need v small =
    elim (Bool-cases (leb (c.send_packet_len + need) c.send_total_len)) [
      | inl fits ↦ rw fits (refl, ground (arith, v.size), refl, v)
      | inr full ↦
          let less : ltb (c.send_packet_len + need) (c.send_total_len + c.send_cur_len) ≡ true =
            ground arith in
          let n = c.send_packet_len - c.send_cur_len in
          rw
            (
              full,
              less,
              copy_out-done c.send_buf c.send_cur_len n c.send_buf
                  (omega (arith, v.size, v.sent, v.within)) (omega (arith, v.size, v.within)),
            )
            (
              refl,
              ground (arith, v.size, v.sent),
              (let z : n - 0 ≡ n = omega arith in
                  rw z (kept_bytes c.send_buf.cells c.send_buf.cells c.send_cur_len n)),
              record {
                some_byte = v.some_byte;
                size = v.size;
                sent = omega arith;
                within = omega (arith, v.within);
              },
            )
    ]

overflows :
    (c : ConnFd) (n : ℕ) → 4 < n → copy_out c.send_buf c.send_cur_len n (new_block 4) ≡ fault
unfolding copy_out fill
overflows c n many = ground (arith, length-read_at c.send_buf.cells c.send_cur_len n)

-- Where ResizeSendBufferPtr comes to its malloc with more than four bytes unsent, it moves them out
-- of the bounds of the block that it has allocated.
pub resize_send_buffer_ptr-overflows :
    (c : ConnFd) (need : ℕ)
    → IsSendable c
    → must_enlarge c need ≡ true
    → 4 < c.send_packet_len - c.send_cur_len
    → resize_send_buffer_ptr true c need ≡ fault
unfolding resize_send_buffer_ptr must_enlarge
resize_send_buffer_ptr-overflows c need v big many =
    let full : leb (c.send_packet_len + need) c.send_total_len ≡ false = ground arith in
    let past : ltb (c.send_packet_len + need) (c.send_total_len + c.send_cur_len) ≡ false =
      ground arith in
    let fuel : c.send_packet_len + need + 1 ≡ suc (c.send_packet_len + need) = omega arith in
    elim (grow_cases (c.send_packet_len + need) c.send_total_len c.send_packet_len need v.some_byte
      (omega arith)) [
        | inl (total, e) ↦
            rw (full, past, fuel, e, overflows c (c.send_packet_len - c.send_cur_len) many)
        | inr over ↦ rw (full, past, fuel, over)
      ]
