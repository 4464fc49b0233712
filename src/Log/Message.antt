-- ===== src/Log/Message.antt =====
-- What __LogMsg writes.
use tcpframe.Prelude.{
  ℕ, zero, suc, ◌≤◌, ◌<◌, ◌≡◌, refl, ltb, true, false, List, Option, some, arith, done, Returns,
  Returns-bind,
}
use tcpframe.Prelude.Int.{pos}
use tcpframe.Prelude.Bytes.{length, take, length-take}
use tcpframe.Prelude.Text.{codes}
use tcpframe.Log.{Fs, LogHandle, fd_file, with_place, dated, check_file_size, print_log, log_msg}

short : (xs : List ℕ) → length (take 8191 xs) ≤ 8191
short xs = omega (arith, length-take 8191 xs)

-- A handle whose file is open as the descriptor `fd`.
abbrev pub on_file : LogHandle → ℕ → LogHandle
on_file h fd = record h { log_fd = pos fd; log_std = fd_file }

module _ (fs : Fs) (w : fs.World) (h : LogHandle) (n : ℕ) where
  -- One write() on the file of the handle, of one message that fits the buffer.
  abbrev pub Written : Option LogHandle × fs.World → Type 0
  Written (h', w') =
      (h' ≡ some (on_file h (suc n)))
      × ((bs : List ℕ) × (length bs ≤ 8191) × (w' ≡ fs.write w (suc n) bs))

  positive : ltb 0 (suc n) ≡ true
  positive = ground arith

  abbrev PrintedOnce : LogHandle × fs.World → Type 0
  PrintedOnce (h', w') = Written (some h', w')

  print_log-PrintedOnce :
      (level : ℕ) (date msg : List ℕ)
      → level < 4
      → Returns PrintedOnce (print_log fs w (on_file h (suc n)) level date msg)
  unfolding print_log check_file_size
  print_log-PrintedOnce zero date msg lt =
      rw positive (refl, (_, short (dated (codes "ERROR") date msg), refl))
  print_log-PrintedOnce (suc zero) date msg lt =
      rw positive (refl, (_, short (dated (codes "WARN") date msg), refl))
  print_log-PrintedOnce (suc (suc zero)) date msg lt =
      rw positive (refl, (_, short (dated (codes "INFO") date msg), refl))
  print_log-PrintedOnce (suc (suc (suc zero))) date msg lt =
      rw positive (refl, (_, short (dated (codes "DEBUG") date msg), refl))
  print_log-PrintedOnce (suc (suc (suc (suc m)))) date msg lt = absurd (omega (arith, lt))

  -- A message of a level up to that of the handle and below 4 (ERROR, WARN, INFO or DEBUG, the levels
  -- that have a name), for a handle of a file, is one write() of at most 8191 bytes, however large the file is: the files are never rotated, and the handle stays as it is.
  pub log_msg-never_rolls :
      (filename place : List ℕ) (level : ℕ) (date text : List ℕ)
      → level ≤ h.log_level
      → level < 4
      → Returns Written
          (log_msg fs w (some (on_file h (suc n))) (some filename) place level date text)
  unfolding log_msg
  log_msg-never_rolls filename place level date text low known =
      let heard : ltb h.log_level level ≡ false = ground (arith, low) in
      let msg = with_place filename place text in
      rw heard (
        Returns-bind PrintedOnce Written (print_log fs w (on_file h (suc n)) level date msg)
          (λ (h', w'). done (some h', w')) (print_log-PrintedOnce level date msg known)
          λ (h', w') p. p)
