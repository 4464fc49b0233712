-- ===== src/SocketIo/Send.antt =====
-- PynServerSendData hands the bytes over in order, and counts those that were taken.
use mathlib.Core.List.{append_assoc}
use tcpframe.Prelude.{
  ℕ, zero, suc, ◌+◌, ◌-◌, ◌≤◌, ◌<◌, ◌≡◌, refl, sym, ap, ◌∙◌, ◌≢◌, ◌⊎◌, inl, inr, true, false,
  Bool-cases, List, [], ◌∷◌, ◌++◌, leb, ◌==◌, arith, Run, done, Returns, Returns-map,
}
use tcpframe.Prelude.Int.{ℤ, pos, negsuc}
use tcpframe.Prelude.Bytes.{take, length-read_at, read_at, read_at_split}
use tcpframe.Os.{Os, OsLaws, WriteResult, wrote, write_again, write_interrupted, write_failed}
use tcpframe.SocketIo.{Block, send_loop, send_data}

-- The first bytes of a block are those of its front.
take-read_at :
    (m : ℕ → ℕ) (at n total : ℕ) → n ≤ total → take n (read_at m at total) ≡ read_at m at n
unfolding read_at
take-read_at m at zero total le = refl
take-read_at m at (suc n) zero le = absurd (omega arith)
take-read_at m at (suc n) (suc total) le =
    ap (◌∷◌ (m at)) (take-read_at m (suc at) n total (omega arith))

pub append_nil : {A : Type 0} (xs : List A) → xs ++ [] ≡ xs
append_nil [] = refl
append_nil (x ∷ xs) = ap (◌∷◌ x) (append_nil xs)

module _ (os : Os) (laws : OsLaws os) (buf : Block) (fd at total : ℕ) where
  -- From `w` to `w'` the bytes from `at + count` up to `at + n` were handed over; the result is the
  -- number `n`, or -1.
  abbrev pub Sent : os.World → ℕ → ℤ × os.World → Type 0
  Sent w count (ret, w') =
      (n : ℕ) × (count + n ≤ total)
      × ((ret ≡ pos (count + n)) ⊎ (ret ≡ negsuc 0))
      × (laws.outgoing w' fd ≡ laws.outgoing w fd ++ read_at buf.cells (at + count) n)

  stays :
      (w w' : os.World) (count : ℕ)
      → count ≤ total
      → laws.outgoing w' fd ≡ laws.outgoing w fd
      → (ret : ℤ) → ((ret ≡ pos count) ⊎ (ret ≡ negsuc 0))
      → Sent w count (ret, w')
  unfolding read_at
  stays w w' count le same ret code =
      let e : count + 0 ≡ count = omega arith in
      (0, omega arith, rw e code, same ∙ sym (append_nil _))

  -- Each turn of the loop, by what write() reports, where the turns that follow are right.
  turn-Sent :
      (w : os.World) (count : ℕ) (r : WriteResult) (w' : os.World)
      (again : os.World → ℕ → Run (ℤ × os.World))
      → count < total
      → os.write w fd (read_at buf.cells (at + count) (total - count)) ≡ (r, w')
      → ((count' : ℕ)
          → count' ≤ total
          → laws.signals w' + (total - count') < laws.signals w + (total - count)
          → Returns (Sent w' count') (again w' count'))
      → Returns (Sent w count) (elim r [
        | wrote n ↦ again w' (count + n)
        | write_again ↦ done (pos count, w')
        | write_interrupted ↦ again w' count
        | write_failed ↦ done (negsuc 0, w')
      ])
  turn-Sent w count (wrote n) w' again lt e ih =
      let size = length-read_at buf.cells (at + count) (total - count) in
      let (some_byte, few, front) = laws.write_takes w fd _ n w' e (omega (arith, size)) in
      let kept = laws.write_keeps_signals w fd _ n w' e in
      Returns-map _ _ (again w' (count + n))
        (ih (count + n) (omega (arith, size)) (omega (arith, size, kept)))
        λ (ret, w'') (m, within, code, sent).
          let e1 : count + (n + m) ≡ count + n + m = omega arith in
          let e2 : at + count + n ≡ at + (count + n) = omega arith in
          (
            n + m,
            omega arith,
            rw e1 code,
            sent
                ∙ ap (λ x. x ++ read_at buf.cells (at + (count + n)) m) front
                ∙ append_assoc (laws.outgoing w fd) _ _
                ∙ ap (λ x. laws.outgoing w fd ++ (x ++ read_at buf.cells (at + (count + n)) m))
                    (take-read_at buf.cells (at + count) n (total - count) (omega (arith, size)))
                ∙ ap (λ x. laws.outgoing w fd ++ x)
                    (rw (read_at_split buf.cells (at + count) n m, e2)),
          )
  turn-Sent w count write_again w' again lt e ih =
      stays w w' count (omega arith) (laws.write_nothing w fd _ _ w' e refl) _ (inl refl)
  turn-Sent w count write_interrupted w' again lt e ih =
      let same = laws.write_nothing w fd _ write_interrupted w' e refl in
      Returns-map _ _ (again w' count)
        (ih count (omega arith) (omega (arith, laws.write_interrupts w fd _ w' e)))
        λ (ret, w'') (m, within, code, sent).
          (m, within, code, sent ∙ ap (λ x. x ++ read_at buf.cells (at + count) m) same)
  turn-Sent w count write_failed w' again lt e ih =
      stays w w' count (omega arith) (laws.write_nothing w fd _ _ w' e refl) _ (inr refl)

  send_loop-Sent :
      (k : ℕ) (w : os.World) (count : ℕ)
      → count ≤ total
      → at + total ≤ buf.total
      → laws.signals w + (total - count) < k
      → Returns (Sent w count) (send_loop os k w buf fd at total count)
  unfolding send_loop
  send_loop-Sent zero w count le fits fuel = absurd (omega arith)
  send_loop-Sent (suc k) w count le fits fuel =
      let inside : leb (at + total) buf.total ≡ true = ground arith in
      elim (Bool-cases (leb total count)) [
        | inl full ↦ rw full (stays w w count (omega arith) refl _ (inl refl))
        | inr more ↦
            rw (more, inside)
              (turn-Sent w count (os.write w fd (read_at buf.cells (at + count) (total - count))).0
                (os.write w fd (read_at buf.cells (at + count) (total - count))).1
                (λ w' count'. send_loop os k w' buf fd at total count') (ground arith) refl
                λ count' le' less. send_loop-Sent k _ count' le' fits (omega arith))
      ]

  -- PynServerSendData on a descriptor other than 0 returns: the bytes that it hands over are the
  -- first ones of those that it was asked to send, in order, and the result is their number or -1.
  -- Enough rounds are the bytes to send and the signals that may interrupt.
  pub send_data-Sent :
      (fuel : ℕ) (w : os.World)
      → fd ≢ 0
      → at + total ≤ buf.total
      → laws.signals w + total < fuel
      → Returns (Sent w 0) (send_data os fuel w buf fd at total)
  unfolding send_data
  send_data-Sent fuel w open_fd fits enough =
      let e : (fd == 0) ≡ false = ground arith in
      rw e (send_loop-Sent fuel w 0 (omega arith) fits (omega arith))
