-- ===== src/Conn/Recv.antt =====
-- ResizeRecvBufferPtr makes room for a packet and keeps what was received.
use tcpframe.Prelude.{
  ℕ, zero, suc, ◌+◌, ◌*◌, ◌^◌, ◌≤◌, ◌<◌, ◌≡◌, refl, ◌⊎◌, inl, inr, subst, Bool, true, false,
  Bool-cases, if◌then◌else◌, ltb, leb, ◌==◌, arith, done, fault, ◌>>=◌, Returns, Returns-bind,
  Returns-map,
}
use tcpframe.Prelude.Bytes.{length-read_at, read_at, write_at, read_at-write_at}
use tcpframe.SocketIo.{Block, fill}
use tcpframe.Conn.{ConnFd, new_block, copy_out, grow, resize_recv_buffer_ptr}

-- Doubling reaches a size of up to 2^30 in as many rounds as there are bytes missing.
pub grow_lem :
    (k total used need : ℕ)
    → 0 < total
    → used + need ≤ total + k
    → used + need ≤ 2 ^ 30
    → Returns (λ t. (used + need ≤ t) × (total ≤ t)) (grow (suc k) total used need)
unfolding grow
grow_lem zero total used need some_byte enough int =
    let e : ltb total (used + need) ≡ false = ground arith in rw e (omega arith, omega arith)
grow_lem (suc k) total used need some_byte enough int =
    elim (Bool-cases (ltb total (used + need))) [
      | inr fits ↦ rw fits (ground arith, omega arith)
      | inl small ↦
          let fits : ltb (total * 2) (2 ^ 31) ≡ true = ground (arith, small, int) in
          rw (small, fits)
            (Returns-map _ _ (grow (suc k) (total * 2) used need)
              (grow_lem k (total * 2) used need (omega arith) (omega arith) int)
              λ t (a, b). (a, omega arith))
    ]

-- Otherwise the size that is needed is reached, or the doubling leaves the range of an int.
pub grow_cases :
    (k total used need : ℕ)
    → 0 < total
    → used + need ≤ total + k
    → ((t : ℕ) × (grow (suc k) total used need ≡ done t)) ⊎ (grow (suc k) total used need ≡ fault)
unfolding grow
grow_cases zero total used need some_byte enough =
    let e : ltb total (used + need) ≡ false = ground arith in rw e (inl (total, refl))
grow_cases (suc k) total used need some_byte enough = elim (Bool-cases (ltb total (used + need))) [
  | inr fits ↦ rw fits (inl (total, refl))
  | inl small ↦ elim (Bool-cases (ltb (total * 2) (2 ^ 31))) [
    | inl int ↦ rw (small, int) (grow_cases k (total * 2) used need (omega arith) (omega arith))
    | inr over ↦ rw (small, over) (inr refl)
  ]
]

-- A copy that fits both blocks puts the bytes at the start of the second.
pub copy_out-done :
    (from : Block) (at n : ℕ) (to : Block)
    → at + n ≤ from.total
    → n ≤ to.total
    → copy_out from at n to
      ≡ done (record to { cells = write_at to.cells 0 (read_at from.cells at n) })
unfolding copy_out fill
copy_out-done from at n to a b = ground (arith, length-read_at from.cells at n)

pub kept_bytes :
    (m m' : ℕ → ℕ) (at n : ℕ) → read_at (write_at m' 0 (read_at m at n)) 0 n ≡ read_at m at n
kept_bytes m m' at n =
    let e = length-read_at m at n in
    subst (λ x. read_at (write_at m' 0 (read_at m at n)) 0 x ≡ read_at m at n) e
      (read_at-write_at m' 0 (read_at m at n))

-- The size that the connection has noted is that of its block.
pub record IsSound (c : ConnFd) : Type 0 where
  pub some_byte : 0 < c.recv_total_len
  pub size : c.recv_buf.total ≡ c.recv_total_len
  pub within : c.recv_cur_len ≤ c.recv_total_len

-- There is room for `need` more bytes, and those received are kept.
pub record Roomy (c : ConnFd) (need : ℕ) (c' : ConnFd) : Type 0 where
  pub sound : IsSound c'
  pub room : c'.recv_cur_len + need ≤ c'.recv_buf.total
  pub same_len : c'.recv_cur_len ≡ c.recv_cur_len
  pub kept : read_at c'.recv_buf.cells 0 c.recv_cur_len ≡ read_at c.recv_buf.cells 0 c.recv_cur_len

pub resize_recv_buffer_ptr-Roomy :
    (found : Bool) (c : ConnFd) (need : ℕ)
    → IsSound c
    → 0 < need
    → c.recv_cur_len + need ≤ 2 ^ 30
    → Returns
        (λ (ok, c'). ((ok ≡ true) × Roomy c need c') ⊎ ((ok ≡ false) × (found ≡ false)))
        (resize_recv_buffer_ptr found c need)
unfolding resize_recv_buffer_ptr
resize_recv_buffer_ptr-Roomy found c need v pos int =
    let asked : (need == 0) ≡ false = ground arith in
    elim (Bool-cases (leb (c.recv_cur_len + need) c.recv_total_len)) [
      | inl fits ↦
          rw (asked, fits)
            (inl (
              refl,
              record { sound = v; room = ground (arith, v.size); same_len = refl; kept = refl },
            ))
      | inr small ↦
          let fuel : c.recv_cur_len + need + 1 ≡ suc (c.recv_cur_len + need) = omega arith in
          rw (asked, small, fuel)
            (Returns-bind _ _
              (grow (suc (c.recv_cur_len + need)) c.recv_total_len c.recv_cur_len need) _
              (grow_lem _ _ _ need v.some_byte (omega arith) int)
              λ total (room, more). moved found total room more)
    ]
  where
    moved :
        (found : Bool) (total : ℕ)
        → c.recv_cur_len + need ≤ total
        → c.recv_total_len ≤ total
        → Returns
            (λ (ok, c'). ((ok ≡ true) × Roomy c need c') ⊎ ((ok ≡ false) × (found ≡ false)))
            (if found
              then (copy_out c.recv_buf 0 c.recv_cur_len (new_block total) >>= λ b.
                  done (true, record c { recv_total_len = total; recv_buf = b }))
              else done (false, record c { recv_total_len = total }))
    moved false total room more = inr (refl, refl)
    moved true total room more =
        rw
          (copy_out-done c.recv_buf 0 c.recv_cur_len (new_block total)
            (omega (arith, v.size, v.within)) (omega arith))
          (inl (
            refl,
            record {
              sound = record {
                some_byte = omega (arith, v.some_byte);
                size = refl;
                within = omega arith;
              };
              room = room;
              same_len = refl;
              kept = kept_bytes c.recv_buf.cells (λ _. 0) 0 c.recv_cur_len;
            },
          ))
