-- ===== src/Client/Serve.antt =====
-- SendToServerCallback and RecvFromServerCallback end without a fault and leave the array right.
use tcpframe.Prelude.{
  ℕ, zero, suc, ◌+◌, ◌-◌, ◌%◌, ◌≤◌, ◌<◌, ◌≡◌, refl, false, leb, ◌==◌, if◌then◌else◌, Option, none,
  some, List, arith, Run, done,
}
use tcpframe.Prelude.Safe.{Safe, Safe-done, Safe-if}
use tcpframe.Prelude.Bytes.{length, read_at, length-read_at}
use tcpframe.Os.{
  Os, OsLaws, ReadResult, got, closed, read_again, read_interrupted, read_failed, WriteResult,
  wrote, write_again, write_interrupted, write_failed, eintr, eagain, other_error,
}
use tcpframe.Client.Types.{ClientFd, word}
use tcpframe.Client.Callbacks.{
  Outcome, moved, again, later, broken, write_once, write_loop, read_once, read_loop,
}

-- What a write may have come to: it does not exceed what is left of the request.
abbrev pub Written : ClientFd → Outcome → Type 0
Written c (moved n) = c.sended_len + n ≤ c.send_buf_len
Written c again = ⊥
Written c later = Unit
Written c broken = Unit

-- A read gives at most the bytes that were asked for.
abbrev pub ReadIn : ℕ → ReadResult → Type 0
ReadIn n (got bs) = length bs ≤ n
ReadIn n _ = Unit

module _ (os : Os) (laws : OsLaws os) where
  turn-Written :
      (c : ClientFd) (fd : ℕ) (w : os.World) (bs : List ℕ) (r : WriteResult) (w' : os.World)
      (retry : Run (Outcome × os.World))
      → os.write w fd bs ≡ (r, w')
      → 0 < length bs
      → c.sended_len + length bs ≡ c.send_buf_len
      → (laws.signals w' < laws.signals w → Safe (λ (o, v). Written c o) retry)
      → let stale : Outcome = elim (os.errno w') [
        | eintr ↦ again
        | eagain ↦ later
        | other_error ↦ broken
      ] in
        let once : Outcome = elim r [
          | wrote n ↦ if n == 0 then stale else moved n
          | write_again ↦ later
          | write_interrupted ↦ again
          | write_failed ↦ broken
        ] in
        Safe {A = Outcome × os.World}
          (λ (o, v). Written c o)
          (elim once [
            | moved n ↦ done (moved n, w')
            | again ↦ retry
            | later ↦ done (later, w')
            | broken ↦ done (broken, w')
          ])
  turn-Written c fd w bs (wrote n) w' retry e some_byte size ih =
      let (moves, few, front) = laws.write_takes w fd bs n w' e some_byte in
      let moved_some : (n == 0) ≡ false = ground arith in
      rw moved_some (Safe-done _ _ (omega arith))
  turn-Written c fd w bs write_again w' retry e some_byte size ih = Safe-done _ _ tt
  turn-Written c fd w bs write_interrupted w' retry e some_byte size ih =
      ih (laws.write_interrupts w fd bs w' e)
  turn-Written c fd w bs write_failed w' retry e some_byte size ih = Safe-done _ _ tt

  write_fd-Written :
      (retry : os.World → ClientFd → Run (Outcome × os.World)) (w : os.World) (c : ClientFd)
      (d : Option ℕ) (bs : List ℕ)
      → 0 < length bs
      → c.sended_len + length bs ≡ c.send_buf_len
      → ((w' : os.World)
          → laws.signals w' < laws.signals w
          → Safe (λ (o, v). Written c o) (retry w' c))
      → let (result, w') = write_once os w d bs in
        Safe {A = Outcome × os.World}
          (λ (o, v). Written c o)
          (elim result [
            | moved n ↦ done (moved n, w')
            | again ↦ retry w' c
            | later ↦ done (later, w')
            | broken ↦ done (broken, w')
          ])
  unfolding write_once
  write_fd-Written retry w c none bs some_byte e ih = Safe-done _ _ tt
  write_fd-Written retry w c (some fd) bs some_byte e ih =
      turn-Written c fd w bs (os.write w fd bs).0 (os.write w fd bs).1 _ refl some_byte e (ih _)

  pub write_loop-Written :
      (k : ℕ) (w : os.World) (c : ClientFd)
      → c.sended_len < c.send_buf_len
      → c.send_buf_len ≤ 4097
      → laws.signals w < k
      → Safe (λ (o, v). Written c o) (write_loop os k w c)
  unfolding write_loop write_once
  write_loop-Written zero w c lt room fuel = absurd (omega arith)
  write_loop-Written (suc k) w c lt room fuel =
      let size = (c.send_buf_len + (word - c.sended_len)) % word in
      let all : c.sended_len + size ≡ c.send_buf_len = omega arith in
      let bs = read_at c.send_buf c.sended_len size in
      let len = length-read_at c.send_buf c.sended_len size in
      Safe-if _ (leb (c.sended_len + size) 4097) _ _
        (λ h.
          write_fd-Written (write_loop os k) w c c.fd bs (omega (arith, len)) (omega (arith, len))
            λ w' less. write_loop-Written k w' c lt room (omega arith))
        λ h. absurd (ground (arith, all))

  turn-ReadIn :
      (fd n : ℕ) (w : os.World) (r : ReadResult) (w' : os.World)
      (retry : Run (ReadResult × os.World))
      → os.read w fd n ≡ (r, w')
      → (laws.signals w' < laws.signals w → Safe (λ (o, v). ReadIn n o) retry)
      → Safe {A = ReadResult × os.World}
          (λ (o, v). ReadIn n o)
          (elim r [
            | got bs ↦ done (got bs, w')
            | closed ↦ done (closed, w')
            | read_again ↦ done (read_again, w')
            | read_interrupted ↦ retry
            | read_failed ↦ done (read_failed, w')
          ])
  turn-ReadIn fd n w (got bs) w' retry e ih =
      let (some_byte, few, front) = laws.read_takes w fd n bs w' e in Safe-done _ _ few
  turn-ReadIn fd n w closed w' retry e ih = Safe-done _ _ tt
  turn-ReadIn fd n w read_again w' retry e ih = Safe-done _ _ tt
  turn-ReadIn fd n w read_interrupted w' retry e ih = ih (laws.read_interrupts w fd n w' e)
  turn-ReadIn fd n w read_failed w' retry e ih = Safe-done _ _ tt

  read_fd-ReadIn :
      (retry : os.World → ClientFd → Run (ReadResult × os.World)) (w : os.World) (c : ClientFd)
      (d : Option ℕ)
      → ((w' : os.World)
          → laws.signals w' < laws.signals w
          → Safe (λ (o, v). ReadIn (4097 - c.recv_buf_len) o) (retry w' c))
      → let (r, w') = read_once os w d (4097 - c.recv_buf_len) in
        Safe {A = ReadResult × os.World}
          (λ (o, v). ReadIn (4097 - c.recv_buf_len) o)
          (elim r [
            | got bs ↦ done (got bs, w')
            | closed ↦ done (closed, w')
            | read_again ↦ done (read_again, w')
            | read_interrupted ↦ retry w' c
            | read_failed ↦ done (read_failed, w')
          ])
  unfolding read_once
  read_fd-ReadIn retry w c none ih = Safe-done _ _ tt
  read_fd-ReadIn retry w c (some fd) ih =
      turn-ReadIn fd _ w (os.read w fd (4097 - c.recv_buf_len)).0
        (os.read w fd (4097 - c.recv_buf_len)).1 _ refl (ih _)

  pub read_loop-ReadIn :
      (k : ℕ) (w : os.World) (c : ClientFd)
      → laws.signals w < k
      → Safe (λ (o, v). ReadIn (4097 - c.recv_buf_len) o) (read_loop os k w c)
  unfolding read_loop read_once
  read_loop-ReadIn zero w c fuel = absurd (omega arith)
  read_loop-ReadIn (suc k) w c fuel =
      read_fd-ReadIn (read_loop os k) w c c.fd λ w' less. read_loop-ReadIn k w' c (omega arith)
