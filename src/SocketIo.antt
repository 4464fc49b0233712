-- ===== src/SocketIo.antt =====
-- src/socket_api.c: PynServerRecvData and PynServerSendData, the loops around read() and write() on a
-- non-blocking socket.
pub mod Recv
pub mod Send
use tcpframe.Prelude.{
  ℕ, zero, suc, ◌+◌, ◌-◌, Bool, true, false, List, ltb, leb, ◌==◌, if◌then◌else◌, Run, done, fault,
  out_of_fuel, ◌>>=◌,
}
use tcpframe.Prelude.Int.{ℤ, pos, negsuc}
use tcpframe.Prelude.Bytes.{length, read_at, write_at}
use tcpframe.Os.{
  Os, got, closed, read_again, read_interrupted, read_failed, wrote, write_again, write_interrupted,
  write_failed,
}

-- A block of bytes that was allocated with a size.
pub record Block : Type 0 where
  pub cells : ℕ → ℕ
  pub total : ℕ

-- The kernel stores what it read from `at` on.
unfoldable pub fill : Block → ℕ → List ℕ → Run Block
fill buf at bs =
    if leb (at + length bs) buf.total
    then done (record buf { cells = write_at buf.cells at bs })
    else fault

module _ (os : Os) where
  open os use {World, read, write}

  -- One turn of the loop of PynServerRecvData: it goes on with `again`, or returns.
  unfoldable pub recv_loop : ℕ → World → Block → ℕ → ℕ → ℕ → ℕ → Run (ℤ × Block × World)
  recv_loop zero w buf fd at need count = out_of_fuel
  recv_loop (suc k) w buf fd at need count =
      let turn : Run (ℤ × Block × World) =
        let (result, w') = read w fd (need - count) in
        elim result [
          | got bs ↦ fill buf (at + count) bs >>= λ buf'.
              recv_loop k w' buf' fd at need (count + length bs)
          | closed ↦ done (pos 0, buf, w')
          | read_again ↦ done (pos count, buf, w')
          | read_interrupted ↦ recv_loop k w' buf fd at need count
          | read_failed ↦ done (negsuc 0, buf, w')
        ] in
      if ltb count need then turn else done (pos count, buf, w)

  -- PynServerRecvData: up to `need` bytes to `at` of a buffer that is not NULL. The fuel bounds the
  -- calls of read().
  unfoldable pub recv_data : ℕ → World → Block → ℕ → ℕ → ℕ → Run (ℤ × Block × World)
  recv_data fuel w buf fd at need = recv_loop fuel w buf fd at need 0

  unfoldable pub send_loop : ℕ → World → Block → ℕ → ℕ → ℕ → ℕ → Run (ℤ × World)
  send_loop zero w buf fd at total count = out_of_fuel
  send_loop (suc k) w buf fd at total count =
      let turn : Run (ℤ × World) =
        let (result, w') = write w fd (read_at buf.cells (at + count) (total - count)) in
        elim result [
          | wrote n ↦ send_loop k w' buf fd at total (count + n)
          | write_again ↦ done (pos count, w')
          | write_interrupted ↦ send_loop k w' buf fd at total count
          | write_failed ↦ done (negsuc 0, w')
        ] in
      if leb total count
      then done (pos count, w)
      else if leb (at + total) buf.total
      then turn
      else fault

  -- PynServerSendData: `total` bytes from `at` on. The code refuses the descriptor 0.
  unfoldable pub send_data : ℕ → World → Block → ℕ → ℕ → ℕ → Run (ℤ × World)
  send_data fuel w buf fd at total =
      if fd == 0 then done (negsuc 0, w) else send_loop fuel w buf fd at total 0
