-- ===== src/Log/Rotation.antt =====
-- The rotation of the log's files.
use tcpframe.Prelude.{
  ℕ, zero, suc, ◌-◌, ◌<◌, ◌≡◌, ◌≢◌, leb, refl, sym, ap, ◌∙◌, false, Bool-cases, inl, inr, ◌==◌,
  if◌then◌else◌, List, [], Option, none, some, Option-cases, arith,
}
use tcpframe.Prelude.Int.{ℤ, pos, negsuc}
use tcpframe.Log.{Fs, LogHandle, exists, close_log, rename_file, shift_from, roll_oldfile2new}

-- What the files hold, and how the calls change it: stat() finds a file that is there, rename() moves
-- it over what has the other name, and open() makes a new one where there is none.
pub record FsLaws (fs : Fs) : Type 0 where
  pub content : fs.World → ℕ → Option (List ℕ)
  pub stat_some : (w : fs.World) (i n : ℕ) → fs.stat w i ≡ some n → content w i ≢ none
  pub stat_none : (w : fs.World) (i : ℕ) → fs.stat w i ≡ none → content w i ≡ none
  pub close_keeps : (w : fs.World) (fd i : ℕ) → content (fs.close w fd) i ≡ content w i
  pub removed :
      (w : fs.World) (k i : ℕ) → content (fs.remove w k) i ≡ (if k == i then none else content w i)
  pub renamed :
      (w : fs.World) (a b i : ℕ)
      → a ≢ b
      → content (fs.rename w a b) i
        ≡ (if b == i then content w a else (if a == i then none else content w i))
  pub opened :
      (w : fs.World) (fd : ℕ) (w' : fs.World)
      → fs.open_log w ≡ (some fd, w')
      → content w 0 ≡ none
      → content w' 0 ≡ some []
  pub opened_others :
      (w : fs.World) (r : Option ℕ) (w' : fs.World) (i : ℕ)
      → fs.open_log w ≡ (r, w')
      → 0 < i
      → content w' i ≡ content w i

module _ (fs : Fs) (laws : FsLaws fs) where
  open laws use {
    content, stat_some, stat_none, close_keeps, removed, renamed, opened, opened_others,
  }

  closed : (w : fs.World) (fd : ℤ) (i : ℕ) → content (close_log fs w fd) i ≡ content w i
  closed w (pos fd) i = close_keeps w fd i
  closed w (negsuc n) i = refl

  missing : (w : fs.World) (i : ℕ) → exists fs w i ≡ false → content w i ≡ none
  missing w i h = elim (Option-cases (fs.stat w i)) [
    | inl e ↦ stat_none w i e
    | inr (n, e) ↦ absurd (ground (arith, h, e))
  ]

  -- A file moves to a name that is free, and leaves its own free.
  moved :
      (w : fs.World) (a i : ℕ)
      → content w (suc a) ≡ none
      → content (rename_file fs w a (suc a)) i
        ≡ (if suc a == i then content w a else (if a == i then none else content w i))
  moved w a i free = elim (Bool-cases (exists fs w a)) [
    | inl e ↦ rw e (renamed w a (suc a) i (omega arith))
    | inr e ↦ rw e (still e)
  ]
    where
      still :
          exists fs w a ≡ false
          → content w i
            ≡ (if suc a == i then content w a else (if a == i then none else content w i))
      still e = elim (Bool-cases (suc a == i)) [
        | inl hit ↦
            let at_i : suc a ≡ i = ground arith in
            rw hit (ap (content w) (sym at_i) ∙ free ∙ sym (missing w a e))
        | inr miss ↦ rw miss (elim (Bool-cases (a == i)) [
          | inl hit ↦
              let at_i : a ≡ i = ground arith in rw hit (ap (content w) (sym at_i) ∙ missing w a e)
          | inr other ↦ rw other refl
        ])
      ]

  -- The loop: every file up to `k` goes one further.
  shifted :
      (k : ℕ) (w : fs.World) (i : ℕ)
      → content w (suc k) ≡ none
      → content (shift_from fs k w) i ≡ (
          if i == 0
          then content w 0
          else if i == 1
          then none
          else if leb i (suc k)
          then content w (i - 1)
          else content w i)
  unfolding shift_from
  shifted zero w i free = ground (arith, free)
  shifted (suc k) w i free =
      let w' = rename_file fs w (suc k) (suc (suc k)) in
      let at = moved w (suc k) in
      ground (arith, shifted k w' i, at i free, at (i - 1) free, at 0 free, at (suc k) free)

  oldest_removed :
      (w : fs.World) (n i : ℕ)
      → content (if exists fs w n then fs.remove w n else w) i
        ≡ (if n == i then none else content w i)
  oldest_removed w n i = elim (Bool-cases (exists fs w n)) [
    | inl e ↦ rw e (removed w n i)
    | inr e ↦ elim (Bool-cases (n == i)) [
      | inl hit ↦
          let at_i : n ≡ i = ground arith in rw (e, hit) (ap (content w) (sym at_i) ∙ missing w n e)
      | inr miss ↦ rw (e, miss) refl
    ]
  ]

  new_file :
      (h : LogHandle) (r : Option ℕ) (v : fs.World) (h' : LogHandle) (w' : fs.World)
      → ◌≡◌ {A = Option LogHandle × fs.World}
          (elim r [ none ↦ (none, v) | some fd ↦ (some (record h { log_fd = pos fd }), v) ])
          (some h', w')
      → (fd : ℕ) × (◌≡◌ {A = Option ℕ × fs.World} (r, v) (some fd, w'))
        × (h' ≡ record h { log_fd = pos fd })
  new_file h none v h' w' e = absurd (ground (arith, ap (λ x. x.0) e))
  new_file h (some fd) v h' w' e =
      (fd, ap (λ x. (some fd, x.1)) e, ap (λ x. elim x.0 [ none ↦ h' | some g ↦ g ]) (sym e))

  -- What the rotation leaves, where the new file can be opened: the file "name.(i + 1)" holds what the
  -- file "name.i" held, or the log for `i` = 0, as far as the number of files that are kept; the log
  -- is empty, and the files beyond that number are as before.
  abbrev pub Rotated : fs.World → ℕ → fs.World → Type 0
  Rotated w n w' =
      ((i : ℕ) → i < n → content w' (suc i) ≡ content w i)
      × (content w' 0 ≡ some [])
      × ((i : ℕ) → n < i → content w' i ≡ content w i)

  -- __roll_oldfile2new, for a count of at least one, and where the new file can be opened, moves every
  -- file that is kept one further, forgets the oldest one, and starts an empty log. The handle is
  -- the one before but for its descriptor, which is the one that the last open() gave.
  pub roll_oldfile2new-Rotated :
      (w : fs.World) (h h' : LogHandle) (w' : fs.World)
      → 0 < h.log_file_count
      → roll_oldfile2new fs w h ≡ (some h', w')
      → Rotated w h.log_file_count w'
        × ((fd : ℕ) × (v : fs.World) × (fs.open_log v ≡ (some fd, w'))
            × (h' ≡ record h { log_fd = pos fd }))
  unfolding roll_oldfile2new
  roll_oldfile2new-Rotated w h h' w' some_file e =
      let n = h.log_file_count in
      let w1 = close_log fs w h.log_fd in
      let w2 = if exists fs w1 n then fs.remove w1 n else w1 in
      let w3 = shift_from fs (n - 1) w2 in
      let w4 = rename_file fs w3 0 1 in
      let (fd, made, points) = new_file h (fs.open_log w4).0 (fs.open_log w4).1 h' w' e in
      let cleared = λ (i : ℕ). oldest_removed w1 n i in
      let before = λ (i : ℕ). closed w h.log_fd i in
      let free : content w2 (suc (n - 1)) ≡ none =
        let at_n : suc (n - 1) ≡ n = omega (arith, some_file) in
        rw at_n (ground (arith, cleared n)) in
      let shift = λ (i : ℕ). shifted (n - 1) w2 i free in
      let first : content w3 1 ≡ none = ground (arith, shift 1) in
      let last = λ (i : ℕ). moved w3 0 i first in
      let others = λ (i : ℕ) (p : 0 < i). opened_others w4 (some fd) w' i made p in
      (
        (
          λ i lt.
              ground
                (arith, others (suc i), last (suc i), shift (suc i), shift 0, cleared i, before i),
          opened w4 fd w' made (ground (arith, last 0)),
          λ i lt. ground (arith, others i, last i, shift i, cleared i, before i),
        ),
        (fd, w4, made, points),
      )
