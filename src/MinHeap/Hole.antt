-- ===== src/MinHeap/Hole.antt =====
-- A move of the hole and the end of a sift, as steps on a heap with a hole.
use tcpframe.Prelude.{
  ℕ, ◌≤◌, ◌<◌, ◌≡◌, refl, ◌≢◌, Option, ◌==◌, if◌then◌else◌, arith, inl, inr, Bool-cases,
}
use tcpframe.MinHeap.{MinHeap, with_index, parent}
use tcpframe.MinHeap.Order.{
  rank, Same, strip, IsHeap, view, HasHole, Kept, rank-strip, moved, placed,
}

pub with_index-strip :
    (h : MinHeap) (p q : ℕ) (i : Option ℕ) → strip ((with_index h p i).nodes q) ≡ strip (h.nodes q)
with_index-strip h p q i = ground arith

module _ (n : ℕ) (h : MinHeap) (hole e : ℕ) (v : HasHole n h hole e) where
  module _ (from : ℕ) (lt : from < n) (ne : from ≢ hole) where
    pub moved-HasHole : HasHole n (moved h hole from) from e
    moved-HasHole = record {
      fits = v.fits;
      inside = lt;
      solid = v.solid;
      nonnull = λ i p q. ground (arith, v.nonnull i, v.nonnull from);
      index = λ i p q. ground (arith, v.index i, v.index from);
      fresh = λ i p q. ground (arith, v.fresh i, v.fresh from);
      normal = λ p. ground (arith, v.normal p);
    }

    moved-Same : Same n (view h hole e) (view (moved h hole from) from e)
    moved-Same p = (
      λ s. (
        if hole == s.0 then from else if from == s.0 then hole else s.0,
        ground (arith, v.inside),
        ground arith,
      ),
      λ s. (
        if hole == s.0 then from else if from == s.0 then hole else s.0,
        ground (arith, v.inside),
        ground arith,
      ),
    )

    pub moved-Kept : Kept n h (view h hole e) (moved h hole from) (view (moved h hole from) from e)
    moved-Kept = record {
      used = refl;
      capacity = refl;
      pid = refl;
      nodes = λ p. ground arith;
      others = λ p out. elim (Bool-cases (h.slots from == p)) [
        | inl hit ↦ absurd (out (from, lt, ground arith))
        | inr miss ↦ rw miss
      ];
      same = moved-Same;
    }

  pub placed-Kept : Kept n h (view h hole e) (placed h hole e) (placed h hole e).slots
  placed-Kept = record {
    used = refl;
    capacity = refl;
    pid = refl;
    nodes = λ p. ground arith;
    others = λ p out. elim (Bool-cases (e == p)) [
      | inl hit ↦ absurd (out (hole, v.inside, ground arith))
      | inr miss ↦ rw miss
    ];
    same = λ p. (λ s. s, λ s. s);
  }

  pub placed-IsHeap :
      ((c : ℕ) → 0 < c → c < n → rank h (view h hole e (parent c)) ≤ rank h (view h hole e c))
      → IsHeap n (placed h hole e)
  placed-IsHeap order = record {
    fits = v.fits;
    nonnull = λ i p. ground (arith, v.nonnull i, v.solid);
    order = λ c p q. ground (
      arith,
      rank-strip h (placed h hole e) (view h hole e c) (placed-Kept.nodes _),
      rank-strip h (placed h hole e) (view h hole e (parent c)) (placed-Kept.nodes _),
      order c p q,
    );
    index = λ i p. ground (arith, v.index i, v.fresh i);
    normal = λ p. ground (arith, v.normal p);
  }
