-- ===== src/MinHeap/Up.antt =====
-- __MinheapShiftUp: the loop moves the hole towards the root until the node fits.
use tcpframe.Prelude.{
  ℕ, zero, suc, ◌≤◌, ◌<◌, ◌≡◌, refl, ◌≢◌, inl, inr, ◌==◌, arith, ltb, Bool-cases, ret_succ, Returns,
  Returns-map, Returns-bind,
}
use tcpframe.MinHeap.{null, MinHeap, parent, place, shift_up_loop, shift_up}
use tcpframe.MinHeap.Order.{
  rank, IsHeap, view, HasHole, Kept, Kept-trans, rank-strip, moved, load-done, cmp-done, move-done,
  place-done,
}
use tcpframe.MinHeap.Hole.{moved-HasHole, moved-Kept, placed-Kept, placed-IsHeap}

-- Only the edge above the hole may be out of order.
pub record UpInv (n : ℕ) (h : MinHeap) (hole e : ℕ) : Type 0 where
  pub hollow : HasHole n h hole e
  pub edges :
      (c : ℕ)
      → 0 < c
      → c < n
      → c ≢ hole
      → rank h (view h hole e (parent c)) ≤ rank h (view h hole e c)
  pub bridged :
      (c : ℕ)
      → 0 < c
      → c < n
      → parent c ≡ hole
      → 0 < hole
      → rank h (h.slots (parent hole)) ≤ rank h (h.slots c)

-- A heap that holds what `h` will hold once `e` is in the hole.
abbrev pub Settled : ℕ → MinHeap → ℕ → ℕ → MinHeap → Type 0
Settled n h hole e h' = IsHeap n h' × Kept n h (view h hole e) h' h'.slots

moved-UpInv :
    (n : ℕ) (h : MinHeap) (hole e : ℕ)
    → UpInv n h hole e
    → 0 < hole
    → rank h e < rank h (h.slots (parent hole))
    → UpInv n (moved h hole (parent hole)) (parent hole) e
moved-UpInv n h hole e v pos above = record {
  hollow = moved-HasHole n h hole e v.hollow (parent hole) lt (omega arith);
  edges = λ c p q r. ground (
    arith,
    same (view h' (parent hole) e (parent c)),
    same (view h' (parent hole) e c),
    v.edges c,
    v.bridged c,
  );
  bridged = λ c p q r s. ground (
    arith,
    same (h'.slots (parent (parent hole))),
    same (h'.slots c),
    v.edges c,
    v.edges (parent hole),
    v.bridged c,
  );
}
  where
    lt : parent hole < n
    lt = omega (arith, v.hollow.inside)

    h' : MinHeap
    h' = moved h hole (parent hole)

    same : (p : ℕ) → rank h' p ≡ rank h p
    same p =
        rank-strip h h' p ((moved-Kept n h hole e v.hollow (parent hole) lt (omega arith)).nodes p)

module _ (n : ℕ) (h : MinHeap) (hole e : ℕ) (v : UpInv n h hole e) where
  inside : hole < h.node_capacity
  inside = omega (arith, v.hollow.fits, v.hollow.inside)

  settle :
      ((c : ℕ) → 0 < c → c < n → rank h (view h hole e (parent c)) ≤ rank h (view h hole e c))
      → Returns (Settled n h hole e) (place h hole e)
  settle order =
      rw (place-done h hole e inside v.hollow.solid)
        (placed-IsHeap n h hole e v.hollow order, placed-Kept n h hole e v.hollow)

  module _ (pos : 0 < hole) where
    above_nonnull : h.slots (parent hole) ≢ null
    above_nonnull = v.hollow.nonnull (parent hole) (omega (arith, v.hollow.inside)) (omega arith)

    -- What the sift of the hole above leaves is what the sift of this hole leaves.
    Settled-moved :
        (h' : MinHeap)
        → Settled n (moved h hole (parent hole)) (parent hole) e h'
        → Settled n h hole e h'
    Settled-moved h' (heap, kept) = (
      heap,
      Kept-trans n h (moved h hole (parent hole)) h' _ _ _
          (moved-Kept n h hole e v.hollow (parent hole) (omega (arith, v.hollow.inside))
            (omega arith))
          kept,
    )

shift_up_loop-Settled :
    (k n : ℕ) (h : MinHeap) (hole e : ℕ)
    → hole < k
    → UpInv n h hole e
    → Returns (Settled n h hole e) (shift_up_loop k h hole e)
unfolding shift_up_loop
shift_up_loop-Settled zero n h hole e f v = absurd (omega arith)
shift_up_loop-Settled (suc k) n h hole e f v = elim (Bool-cases (hole == 0)) [
  | inl root ↦ rw root (settle n h hole e v λ c p q. v.edges c p q (ground arith))
  | inr below ↦
      let pos : 0 < hole = ground arith in
      let up = above_nonnull n h hole e v pos in
      let cap = inside n h hole e v in
      rw
        (
          below,
          load-done h (parent hole) (omega arith),
          cmp-done h (h.slots (parent hole)) e up v.hollow.solid v.hollow.normal,
        )
        (elim (Bool-cases (ltb (rank h e) (rank h (h.slots (parent hole))))) [
          | inl less ↦
              rw (less, move-done h hole (parent hole) cap (omega arith) up)
                (Returns-map _ _ (shift_up_loop k (moved h hole (parent hole)) (parent hole) e)
                  (shift_up_loop-Settled k n (moved h hole (parent hole)) (parent hole) e
                    (omega arith) (moved-UpInv n h hole e v pos (ground arith)))
                  (Settled-moved n h hole e v pos))
          | inr fits ↦ rw fits (settle n h hole e v λ c p q. ground (arith, v.edges c))
        ])
]

-- __MinheapShiftUp returns RET_SUCC, with the node in a place that fits.
pub shift_up-Settled :
    (n : ℕ) (h : MinHeap) (hole e : ℕ)
    → UpInv n h hole e
    → Returns (λ (r, h'). (r ≡ ret_succ) × Settled n h hole e h') (shift_up h hole e)
unfolding shift_up
shift_up-Settled n h hole e v = elim (Bool-cases (e == null)) [
  | inl bad ↦ absurd (v.hollow.solid (ground arith))
  | inr good ↦ rw good (
      Returns-bind (Settled n h hole e) _ (shift_up_loop (suc hole) h hole e) _
        (shift_up_loop-Settled (suc hole) n h hole e (omega arith) v) λ h' s. (refl, s))
]
