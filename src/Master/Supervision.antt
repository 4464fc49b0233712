-- ===== src/Master/Supervision.antt =====
-- The master supervises its workers: it keeps as many as it was asked for.
use tcpframe.Prelude.{
  ℕ, suc, ◌+◌, ◌-◌, ◌<◌, ◌≡◌, ◌≢◌, refl, sym, ap, ◌∙◌, subst, ltb, Bool-cases, inl, inr, Option,
  none, some, arith,
}
use tcpframe.Master.{
  ForkResult, fork_failed, in_child, in_parent, Processes, Turn, next, as_child, fork_error,
  wait_error, master_turn,
}

-- How many processes the master has started and not yet waited for. wait() fails only where there is
-- none: the one signal that is handled ends the master.
pub record Children (os : Processes) : Type 0 where
  pub children : os.World → ℕ
  pub forked :
      (w : os.World) (pid : ℕ) (w' : os.World)
      → os.fork w ≡ (in_parent pid, w')
      → children w' ≡ suc (children w)
  pub collected :
      (w : os.World) (pid : ℕ) (w' : os.World)
      → os.wait w ≡ (some pid, w')
      → children w ≡ suc (children w')
  pub no_child : (w w' : os.World) → os.wait w ≡ (none, w') → children w ≡ 0

-- One step of a supervisor of `n` workers, as numbers of the workers that it has: it starts one while
-- any is missing, and takes note of an end only while all are there.
pub data Supervises (n : ℕ) : ℕ → ℕ → Type 0 where
  start : (k : ℕ) → k < n → Supervises n k (suc k)
  lose : (k : ℕ) → suc k ≡ n → Supervises n (suc k) k

module _ (os : Processes) where
  -- The turns of the loop of main() that lead from `w`, with `n` workers missing, to a later state.
  pub data Turns (w : os.World) (n : ℕ) : os.World → ℕ → Type 0 where
    first : Turns w n w n
    more :
        (v : os.World) (m : ℕ) (v' : os.World) (m' : ℕ)
        → Turns w n v m
        → master_turn os v m ≡ next m' v'
        → Turns w n v' m'

module _ (os : Processes) (laws : Children os) where
  open laws use {children}

  -- A turn after which the loop goes on: a worker more, or a worker less.
  data Changed (v : os.World) (m : ℕ) (v' : os.World) (m' : ℕ) : Type 0 where
    started : 0 < m → m ≡ suc m' → children v' ≡ suc (children v) → Changed v m v' m'
    ended : m ≡ 0 → m' ≡ 1 → children v ≡ suc (children v') → Changed v m v' m'

  next_count : {a b : ℕ} {v w : os.World} → ◌≡◌ {A = Turn os} (next a v) (next b w) → a ≡ b
  next_count e = cc

  next_world : {a b : ℕ} {v w : os.World} → ◌≡◌ {A = Turn os} (next a v) (next b w) → v ≡ w
  next_world e = cc

  after_fork :
      (v : os.World) (m : ℕ) (v' : os.World) (m' : ℕ) (r : ForkResult) (v1 : os.World)
      → 0 < m
      → os.fork v ≡ (r, v1)
      → ◌≡◌ {A = Turn os}
          (elim r [
            | fork_failed ↦ fork_error v1
            | in_child ↦ as_child v1
            | in_parent pid ↦ next (m - 1) v1
          ])
          (next m' v')
      → Changed v m v' m'
  after_fork v m v' m' fork_failed v1 some_missing e t = absurd cc
  after_fork v m v' m' in_child v1 some_missing e t = absurd cc
  after_fork v m v' m' (in_parent pid) v1 some_missing e t =
      started some_missing (omega (arith, next_count t, some_missing))
        (ap children (sym (next_world t)) ∙ laws.forked v pid v1 e)

  after_wait :
      (v : os.World) (m : ℕ) (v' : os.World) (m' : ℕ) (r : Option ℕ) (v1 : os.World)
      → m ≡ 0
      → os.wait v ≡ (r, v1)
      → ◌≡◌ {A = Turn os}
          (elim r [ none ↦ wait_error v1 | some pid ↦ next (m + 1) v1 ])
          (next m' v')
      → Changed v m v' m'
  after_wait v m v' m' none v1 none_missing e t = absurd cc
  after_wait v m v' m' (some pid) v1 none_missing e t =
      ended none_missing (omega (arith, next_count t, none_missing))
        (laws.collected v pid v1 e ∙ ap (λ x. suc (children x)) (next_world t))

  turn-Changed :
      (v : os.World) (m : ℕ) (v' : os.World) (m' : ℕ)
      → master_turn os v m ≡ next m' v'
      → Changed v m v' m'
  unfolding master_turn
  turn-Changed v m v' m' t = elim (Bool-cases (ltb 0 m)) [
    | inl h ↦ after_fork v m v' m' (os.fork v).0 (os.fork v).1 (ground (arith, h)) refl (rw h at t)
    | inr h ↦ after_wait v m v' m' (os.wait v).0 (os.wait v).1 (ground (arith, h)) refl (rw h at t)
  ]

  -- The workers that the master has and those that it counts as missing are `n` together.
  all_counted :
      (w : os.World) (n : ℕ) (v : os.World) (m : ℕ)
      → children w ≡ 0
      → Turns os w n v m
      → children v + m ≡ n
  all_counted w n v m alone first = omega (arith, alone)
  all_counted w n v m alone (more u k _ _ turns t) =
      let sum = all_counted w n u k alone turns in
      elim (turn-Changed u k v m t) [
        | started some_missing count grown ↦ omega (arith, sum, count, grown)
        | ended none_missing one less ↦ omega (arith, sum, none_missing, one, less)
      ]

  turn-Supervises :
      (n : ℕ) (v : os.World) (m : ℕ) (v' : os.World) (m' : ℕ)
      → children v + m ≡ n
      → master_turn os v m ≡ next m' v'
      → Supervises n (children v) (children v')
  turn-Supervises n v m v' m' sum t = elim (turn-Changed v m v' m' t) [
    | started some_missing count grown ↦
        subst (Supervises n (children v)) (sym grown)
          (start (children v) (omega (arith, sum, some_missing)))
    | ended none_missing one less ↦
        subst (λ k. Supervises n k (children v')) (sym less)
          (lose (children v') (omega (arith, sum, none_missing, less)))
  ]

  -- From a master without workers, with `n` of them missing and `n` at least one, and however the loop
  -- of main() has gone on: the workers that it has and those that it counts as missing are `n`
  -- together. The next turn, if the loop goes on after it, is a step of a supervisor of `n` workers:
  -- it has one worker more, and before it fewer than `n`, or it has one worker less, and before it
  -- all `n`. And the turn does not end on an error of wait().
  pub master-Supervises :
      (w : os.World) (n : ℕ) (v : os.World) (m : ℕ)
      → 0 < n
      → children w ≡ 0
      → Turns os w n v m
      → (children v + m ≡ n)
        × ((v' : os.World) (m' : ℕ)
            → master_turn os v m ≡ next m' v'
            → Supervises n (children v) (children v'))
        × ((v' : os.World) → master_turn os v m ≢ wait_error v')
  unfolding master_turn
  master-Supervises w n v m some_worker alone turns =
      let sum = all_counted w n v m alone turns in
      (
        sum,
        λ v' m' t. turn-Supervises n v m v' m' sum t,
        λ v'. elim (Bool-cases (ltb 0 m)) [
          | inl h ↦ rw h (by_fork v' (os.fork v).0 (os.fork v).1)
          | inr h ↦
              rw h
                (by_wait v' (os.wait v).0 (os.wait v).1 (ground (arith, sum, h, some_worker)) refl)
        ],
      )
    where
      by_fork :
          (v' : os.World) (r : ForkResult) (v1 : os.World)
          → ◌≢◌ {A = Turn os}
              (elim r [
                | fork_failed ↦ fork_error v1
                | in_child ↦ as_child v1
                | in_parent pid ↦ next (m - 1) v1
              ])
              (wait_error v')
      by_fork v' fork_failed v1 e = cc
      by_fork v' in_child v1 e = cc
      by_fork v' (in_parent pid) v1 e = cc

      by_wait :
          (v' : os.World) (r : Option ℕ) (v1 : os.World)
          → 0 < children v
          → os.wait v ≡ (r, v1)
          → ◌≢◌ {A = Turn os}
              (elim r [ none ↦ wait_error v1 | some pid ↦ next (m + 1) v1 ])
              (wait_error v')
      by_wait v' none v1 busy e t = omega (arith, busy, laws.no_child v v1 e)
      by_wait v' (some pid) v1 busy e t = cc
