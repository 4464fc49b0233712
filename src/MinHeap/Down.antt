-- ===== src/MinHeap/Down.antt =====
-- __MinheapShiftDown: the loop moves the hole towards the leaves until the last node fits. The count
-- of nodes still includes the last node while it is sifted, so its old slot may be a child of the
-- hole; the node is then compared with itself and stays.
use tcpframe.Prelude.{
  ℕ, zero, suc, ◌+◌, ◌-◌, ◌*◌, ◌≤◌, ◌<◌, ◌≡◌, refl, ◌≢◌, ◌⊎◌, inl, inr, ◌==◌, arith, ltb, leb,
  Bool-cases, ret_succ, subst, Returns, Returns-map, Returns-bind, false,
}
use tcpframe.MinHeap.{null, MinHeap, parent, place, min_child, shift_down_loop, shift_down}
use tcpframe.MinHeap.Order.{
  rank, view, HasHole, Kept-trans, rank-strip, moved, load-done, cmp-done, move-done, place-done,
}
use tcpframe.MinHeap.Hole.{moved-HasHole, moved-Kept, placed-Kept, placed-IsHeap}
use tcpframe.MinHeap.Up.{Settled}

-- Only the edges below the hole may be out of order, and `e` also stands behind the heap.
pub record DownInv (n : ℕ) (h : MinHeap) (hole e : ℕ) : Type 0 where
  pub hollow : HasHole n h hole e
  pub used : h.node_used ≡ suc n
  pub room : n < h.node_capacity
  pub last : h.slots n ≡ e
  pub edges :
      (c : ℕ)
      → 0 < c
      → c < n
      → parent c ≢ hole
      → rank h (view h hole e (parent c)) ≤ rank h (view h hole e c)
  pub bridged :
      (c : ℕ)
      → 0 < c
      → c < n
      → parent c ≡ hole
      → 0 < hole
      → rank h (h.slots (parent hole)) ≤ rank h (h.slots c)

-- `m` is a child of the hole that is due first, or the old slot of the last node.
record IsMinChild (n : ℕ) (h : MinHeap) (hole m : ℕ) : Type 0 where
  inside : m ≤ n
  child : (m ≡ 2 * hole + 1) ⊎ (m ≡ 2 * hole + 2)
  least : (c : ℕ) → 0 < c → c < n → parent c ≡ hole → rank h (h.slots m) ≤ rank h (h.slots c)

module _ (n : ℕ) (h : MinHeap) (hole e : ℕ) (v : DownInv n h hole e) where
  slot_nonnull : (m : ℕ) → m ≤ n → m ≢ hole → h.slots m ≢ null
  slot_nonnull m p q = ground (arith, v.hollow.nonnull m, v.last, v.hollow.solid)

  least :
      (right m : ℕ)
      → rank h (h.slots m) ≤ rank h (h.slots right)
      → rank h (h.slots m) ≤ rank h (h.slots (right - 1))
      → right ≡ 2 * (hole + 1)
      → (c : ℕ) → 0 < c
      → c < n
      → parent c ≡ hole
      → rank h (h.slots m) ≤ rank h (h.slots c)
  least right m a b eq c p q r = elim (Bool-cases (c == right)) [
    | inl hit ↦ subst (λ x. rank h (h.slots m) ≤ rank h (h.slots x)) {x = right} (ground arith) a
    | inr miss ↦
        subst (λ x. rank h (h.slots m) ≤ rank h (h.slots x)) {x = right - 1} (ground arith) b
  ]

  min_child-IsMinChild :
      2 * (hole + 1) ≤ suc n → Returns (IsMinChild n h hole) (min_child h (2 * (hole + 1)))
  unfolding min_child
  min_child-IsMinChild le = elim (Bool-cases (2 * (hole + 1) == h.node_used)) [
    | inl at_end ↦ rw at_end (record {
      inside = omega arith;
      child = inl (omega arith);
      least = λ c p q r. absurd (ground (arith, v.used));
    })
    | inr inner ↦
        let right = 2 * (hole + 1) in
        let fits : right ≤ n = ground (arith, v.used) in
        rw
          (
            inner,
            load-done h right (omega (arith, v.room)),
            load-done h (right - 1) (omega (arith, v.room)),
            cmp-done h (h.slots right) (h.slots (right - 1)) (slot_nonnull right fits (omega arith))
                (slot_nonnull (right - 1) (omega arith) (omega arith)) v.hollow.normal,
          )
          (elim (Bool-cases (ltb (rank h (h.slots (right - 1))) (rank h (h.slots right)))) [
            | inl greater ↦ rw greater (record {
              inside = omega arith;
              child = inl (omega arith);
              least = least right (right - 1) (ground arith) (omega arith) (omega arith);
            })
            | inr other ↦ rw other (record {
              inside = fits;
              child = inr (omega arith);
              least = least right right (omega arith) (ground arith) (omega arith);
            })
          ])
  ]

  settle :
      ((c : ℕ) → 0 < c → c < n → rank h (view h hole e (parent c)) ≤ rank h (view h hole e c))
      → Returns (Settled n h hole e) (place h hole e)
  settle order =
      rw (place-done h hole e (omega (arith, v.hollow.fits, v.hollow.inside)) v.hollow.solid)
        (placed-IsHeap n h hole e v.hollow order, placed-Kept n h hole e v.hollow)

  module _ (m : ℕ) (s : IsMinChild n h hole m) where
    place_above : rank h e ≤ rank h (h.slots m) → Returns (Settled n h hole e) (place h hole e)
    place_above le = settle λ c p q. ground (arith, v.edges c, s.least c, v.hollow.inside)

    module _ (less : rank h (h.slots m) < rank h e) where
      child_inside : m < n
      child_inside = ground (arith, s.inside, v.last)

      child_ne : m ≢ hole
      child_ne = ground (arith, s.child)

      kept : (p : ℕ) → rank (moved h hole m) p ≡ rank h p
      kept p =
          rank-strip h (moved h hole m) p
            ((moved-Kept n h hole e v.hollow m child_inside child_ne).nodes p)

      moved-DownInv : DownInv n (moved h hole m) m e
      moved-DownInv = record {
        hollow = moved-HasHole n h hole e v.hollow m child_inside child_ne;
        used = v.used;
        room = v.room;
        last = ground (arith, v.last, v.hollow.inside);
        edges = λ c p q r. ground (
          arith,
          kept (view (moved h hole m) m e (parent c)),
          kept (view (moved h hole m) m e c),
          v.edges c,
          v.bridged m,
          s.least c,
          s.child,
        );
        bridged = λ c p q r t. ground (
          arith,
          kept ((moved h hole m).slots (parent m)),
          kept ((moved h hole m).slots c),
          v.edges c,
          s.child,
        );
      }

      Settled-moved : (h' : MinHeap) → Settled n (moved h hole m) m e h' → Settled n h hole e h'
      Settled-moved h' (heap, k) = (
        heap,
        Kept-trans n h (moved h hole m) h' _ _ _
            (moved-Kept n h hole e v.hollow m child_inside child_ne) k,
      )

shift_down_loop-Settled :
    (k n : ℕ) (h : MinHeap) (hole e : ℕ)
    → n < k + hole
    → DownInv n h hole e
    → Returns (Settled n h hole e) (shift_down_loop k h hole e)
unfolding shift_down_loop
shift_down_loop-Settled zero n h hole e f v = absurd (omega (arith, v.hollow.inside))
shift_down_loop-Settled (suc k) n h hole e f v =
    elim (Bool-cases (leb (2 * (hole + 1)) h.node_used)) [
      | inr leaf ↦ rw leaf (settle n h hole e v λ c p q. ground (arith, v.edges c, v.used))
      | inl inner ↦ rw inner (
          Returns-bind (IsMinChild n h hole) _ (min_child h (2 * (hole + 1))) _
            (min_child-IsMinChild n h hole e v (ground (arith, v.used)))
            λ m s.
              let cap : m < h.node_capacity = omega (arith, v.room, s.inside) in
              let some_node = slot_nonnull n h hole e v m s.inside (ground (arith, s.child)) in
              rw
                (
                  load-done h m cap,
                  cmp-done h e (h.slots m) v.hollow.solid some_node v.hollow.normal,
                  cmp-done h (h.slots m) e some_node v.hollow.solid v.hollow.normal,
                )
                (elim (Bool-cases (ltb (rank h (h.slots m)) (rank h e))) [
                  | inl less ↦
                      let lt : rank h (h.slots m) < rank h e = ground arith in
                      let other : ltb (rank h e) (rank h (h.slots m)) ≡ false = ground arith in
                      let below : n < k + m = ground (arith, s.child) in
                      rw
                        (
                          less,
                          other,
                          move-done h hole m (omega (arith, v.room, v.hollow.inside)) cap some_node,
                        )
                        (Returns-map _ _ (shift_down_loop k (moved h hole m) m e)
                          (shift_down_loop-Settled k n (moved h hole m) m e below
                            (moved-DownInv n h hole e v m s lt))
                          (Settled-moved n h hole e v m s lt))
                  | inr fits ↦ rw fits (place_above n h hole e v m s (ground arith))
                ]))
    ]

-- __MinheapShiftDown returns RET_SUCC, with the last node in a place that fits.
pub shift_down-Settled :
    (n : ℕ) (h : MinHeap) (hole e : ℕ)
    → DownInv n h hole e
    → Returns (λ (r, h'). (r ≡ ret_succ) × Settled n h hole e h') (shift_down h hole e)
unfolding shift_down
shift_down-Settled n h hole e v = elim (Bool-cases (e == null)) [
  | inl bad ↦ absurd (v.hollow.solid (ground arith))
  | inr good ↦ rw good (
      Returns-bind (Settled n h hole e) _ (shift_down_loop (suc h.node_used) h hole e) _
        (shift_down_loop-Settled (suc h.node_used) n h hole e (omega (arith, v.used)) v)
        λ h' s. (refl, s))
]
