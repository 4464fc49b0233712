-- ===== src/MinHeap/Erase.antt =====
-- MinheapPop and MinheapErase.
use tcpframe.Prelude.{
  ℕ, zero, suc, ◌-◌, ◌≤◌, ◌<◌, ◌≡◌, refl, ◌≢◌, ◌⊎◌, inl, inr, ◌==◌, if◌then◌else◌, ◌↔◌, arith, ltb,
  false, true, Bool-cases, none, done, ◌>>=◌, ret_succ, ret_fail, Returns, Returns-bind,
}
use tcpframe.MinHeap.{
  null, MinHeap, parent, load, node_cmp_greater, set_index, shift_down, shift_up, get_top_element,
  finish_pop, pop, finish_erase, erase_at, erase,
}
use tcpframe.MinHeap.Order.{rank, IsHeap, IsValid, Stands, Holds, load-done, cmp-done}
use tcpframe.MinHeap.Remove.{
  Removed, Sifted, IsHeapBut, IsValid-IsHeapBut, distinct, down-Sifted, up-Sifted, reset-Removed,
}

root_least_below :
    (k n : ℕ) (h : MinHeap) (i : ℕ)
    → IsHeap n h
    → i < k
    → i < n
    → rank h (h.slots 0) ≤ rank h (h.slots i)
root_least_below zero n h i v f p = absurd (omega arith)
root_least_below (suc k) n h i v f p =
    ground (arith, v.order i, root_least_below k n h (parent i) v)

-- No node of the heap is due before the one at the root.
pub top_least : (h : MinHeap) (p : ℕ) → IsValid h → Holds h p → rank h (h.slots 0) ≤ rank h p
top_least h p v (i, lt, e) =
    ground (arith, root_least_below (suc i) h.node_used h i v (omega arith) lt)

-- MinheapGetTopElement gives NULL for the empty heap, and else a node of the heap that is due first.
pub get_top_element_lem :
    (h : MinHeap)
    → IsValid h
    → Returns
        (λ p.
          ((h.node_used ≡ 0) × (p ≡ null))
          ⊎ (Holds h p × (p ≢ null) × ((q : ℕ) → Holds h q → rank h p ≤ rank h q)))
        (get_top_element h)
unfolding get_top_element
get_top_element_lem h v = elim (Bool-cases (h.node_used == 0)) [
  | inl bare ↦ elim (Bool-cases (h.node_capacity == 0)) [
    | inl none_yet ↦ rw none_yet (inl (ground arith, refl))
    | inr grown ↦ rw (grown, bare) (inl (ground arith, refl))
  ]
  | inr busy ↦
      let pos : 0 < h.node_used = ground arith in
      let grown : (h.node_capacity == 0) ≡ false = ground (arith, v.fits) in
      rw (grown, busy, load-done h 0 (omega (arith, v.fits)))
        (inr ((0, pos, refl), v.nonnull 0 pos, λ q held. top_least h q v held))
]

finish_pop-Removed :
    (n : ℕ) (h : MinHeap) (p : ℕ) (h' : MinHeap)
    → h.node_used ≡ suc n
    → p ≢ null
    → Holds h p
    → ((q : ℕ) → Holds h q → rank h p ≤ rank h q)
    → Sifted n h p h'
    → Returns
        (λ (top, g). Holds h top × ((q : ℕ) → Holds h q → rank h top ≤ rank h q) × Removed h top g)
        (finish_pop p (ret_succ, h'))
unfolding finish_pop set_index
finish_pop-Removed n h p h' size solid held least s =
    let nonnull : (p == null) ≡ false = ground arith in
    rw nonnull (held, least, reset-Removed n h p h' size held s)

-- MinheapPop of a heap that is not empty removes a node that is due first.
pub pop-Removed :
    (h : MinHeap)
    → IsValid h
    → 0 < h.node_used
    → Returns
        (λ (p, h'). Holds h p × ((q : ℕ) → Holds h q → rank h p ≤ rank h q) × Removed h p h')
        (pop h)
unfolding pop
pop-Removed h v pos =
    let n = h.node_used - 1 in
    let size : h.node_used ≡ suc n = omega arith in
    let busy : (h.node_used == 0) ≡ false = ground arith in
    let solid : (h.slots n == null) ≡ false = ground (arith, v.nonnull n) in
    let held : Holds h (h.slots 0) = (0, pos, refl) in
    rw (busy, load-done h 0 (omega (arith, v.fits)), load-done h n (omega (arith, v.fits)), solid)
      (Returns-bind _ _ (shift_down h 0 (h.slots n)) _
        (down-Sifted h 0 (IsValid-IsHeapBut h 0 v pos) n size (omega arith) (omega arith))
        λ (r, h') (ok, s). rw ok (
          finish_pop-Removed n h (h.slots 0) h' size (v.nonnull 0 pos) held
            (λ q other. top_least h q v other) s))

-- MinheapPop of an empty heap returns NULL and changes nothing.
pub pop-empty : (h : MinHeap) → h.node_used ≡ 0 → pop h ≡ done (null, h)
unfolding pop
pop-empty h e = ground arith

module _ (h : MinHeap) (i : ℕ) (v : IsHeapBut h i) (lt : i < h.node_used) where
  abbrev last : ℕ
  last = h.slots (h.node_used - 1)

  size : h.node_used ≡ suc (h.node_used - 1)
  size = omega arith

  -- MinheapErase reads the index of the node, and goes on from its slot.
  enters : erase h (h.slots i) ≡ erase_at h (h.slots i) i
  unfolding erase
  enters = ground (arith, v.index i, v.nonnull i)

  finish_down :
      (h' : MinHeap)
      → Sifted (h.node_used - 1) h (h.slots i) h'
      → Returns
          (λ (r, g). (r ≡ ret_succ) × Removed h (h.slots i) g)
          (finish_erase (ret_succ, h') (h.slots i))
  unfolding finish_erase set_index
  finish_down h' s =
      let nonnull : (h.slots i == null) ≡ false = ground (arith, v.nonnull i) in
      rw nonnull (refl, reset-Removed (h.node_used - 1) h (h.slots i) h' size (i, lt, refl) s)

  down_part :
      (0 < i → rank h (h.slots (parent i)) ≤ rank h last)
      → Returns
          (λ (r, g). (r ≡ ret_succ) × Removed h (h.slots i) g)
          (shift_down h i last >>= λ r. finish_erase r (h.slots i))
  down_part above =
      Returns-bind _ _ (shift_down h i last) _
        (down-Sifted h i v (h.node_used - 1) size (omega arith) above)
        λ (r, h') (ok, s). rw ok (finish_down h' s)

  -- The tests on the way to the comparison with the parent all pass.
  begins : erase h (h.slots i) ≡ (
      if ltb 0 i
      then (load h (parent i) >>= λ p. node_cmp_greater h p last >>= λ greater.
          if greater
          then (shift_up h i last >>= λ r. finish_erase r last)
          else (shift_down h i last >>= λ r. finish_erase r (h.slots i)))
      else (shift_down h i last >>= λ r. finish_erase r (h.slots i)))
  unfolding erase_at
  begins =
      let busy : (h.node_used == 0) ≡ false = ground arith in
      let solid : (last == null) ≡ false = ground (arith, v.nonnull (h.node_used - 1)) in
      rw (enters, busy, load-done h (h.node_used - 1) (omega (arith, v.fits)), solid)

  cmp :
      0 < i
      → node_cmp_greater h (h.slots (parent i)) last
        ≡ done (ltb (rank h last) (rank h (h.slots (parent i))))
  cmp pos =
      cmp-done h (h.slots (parent i)) last (v.nonnull (parent i) (omega arith))
        (v.nonnull (h.node_used - 1) (omega arith)) v.normal

  finish_up :
      i < h.node_used - 1
      → (h' : MinHeap) → Sifted (h.node_used - 1) h (h.slots i) h'
      → Returns
          (λ (r, g).
            (r ≡ ret_succ)
            × ((q : ℕ) → Holds g q ↔ (Holds h q × (q ≢ h.slots i)))
            × ((c : ℕ) → 0 < c → c < g.node_used → rank g (g.slots (parent c)) ≤ rank g (g.slots c))
            × Holds g last
            × ((g.nodes last).heap_index ≡ none)
            × ¬ IsValid g)
          (finish_erase (ret_succ, h') last)
  unfolding finish_erase set_index
  finish_up inner_slot h' s =
      let nonnull : (last == null) ≡ false = ground (arith, v.nonnull (h.node_used - 1)) in
      let stands = (s.members last).1 ((h.node_used - 1, omega arith, refl), differ) in
      let held : Stands (h'.node_used - 1) h'.slots last =
        (stands.0, omega (arith, s.used, stands.1), stands.2) in
      rw nonnull (
        refl,
        λ q. (
          λ (j, p, e). (s.members q).0 (j, omega (arith, s.used), e),
          λ both. let (j, p, e) = (s.members q).1 both in (j, omega (arith, s.used), e),
        ),
        λ c pos lt. ground (arith, s.heap.order c pos (omega (arith, s.used))),
        held,
        ground arith,
        λ w. ground (arith, w.index held.0 held.1, held.2),
      )
    where
      differ : last ≢ h.slots i
      differ e = omega (arith, distinct h v.index (h.node_used - 1) i (omega arith) lt e)

  -- MinheapErase of a node of the heap, where the last node is not due before the node's parent,
  -- removes exactly that node and resets its index.
  pub erase-Removed :
      (0 < i → rank h (h.slots (parent i)) ≤ rank h last)
      → Returns (λ (r, h'). (r ≡ ret_succ) × Removed h (h.slots i) h') (erase h (h.slots i))
  erase-Removed above = elim (Bool-cases (ltb 0 i)) [
    | inr root ↦ rw (begins, root) (down_part above)
    | inl inner ↦
        let pos : 0 < i = ground arith in
        let stays : ltb (rank h last) (rank h (h.slots (parent i))) ≡ false =
          ground (arith, above pos) in
        rw (begins, inner, load-done h (parent i) (omega (arith, v.fits)), cmp pos, stays)
          (down_part above)
  ]

  -- MinheapErase of a node whose parent is due later than the last node takes that node out of the
  -- heap and leaves every parent due no later than its child, but it resets the index of the last
  -- node, which stays in the heap: the heap is no longer valid.
  pub erase_up_forgets :
      i < h.node_used - 1
      → 0 < i
      → rank h last < rank h (h.slots (parent i))
      → Returns
          (λ (r, h').
            (r ≡ ret_succ)
            × ((q : ℕ) → Holds h' q ↔ (Holds h q × (q ≢ h.slots i)))
            × ((c : ℕ)
                → 0 < c
                → c < h'.node_used
                → rank h' (h'.slots (parent c)) ≤ rank h' (h'.slots c))
            × Holds h' last
            × ((h'.nodes last).heap_index ≡ none)
            × ¬ IsValid h')
          (erase h (h.slots i))
  erase_up_forgets inner_slot pos above =
      let inner : ltb 0 i ≡ true = ground arith in
      let rises : ltb (rank h last) (rank h (h.slots (parent i))) ≡ true = ground arith in
      rw (begins, inner, load-done h (parent i) (omega (arith, v.fits)), cmp pos, rises)
        (Returns-bind _ _ (shift_up h i last) _
          (up-Sifted h i v (h.node_used - 1) size inner_slot pos above)
          λ (r, h') (ok, s). rw ok (finish_up inner_slot h' s))

-- MinheapErase of a node that says that it is in no heap fails and changes nothing.
pub erase-outside :
    (h : MinHeap) (p : ℕ) → (h.nodes p).heap_index ≡ none → erase h p ≡ done (ret_fail, h)
unfolding erase
erase-outside h p e = ground arith
