-- ===== src/MinHeap/Remove.antt =====
-- What MinheapPop and MinheapErase share: the last node is sifted into the place of another.
use tcpframe.Prelude.{
  ℕ, suc, ◌+◌, ◌-◌, ◌*◌, ◌≤◌, ◌<◌, ◌≡◌, refl, ◌≢◌, ◌↔◌, ◌∙◌, inl, inr, ◌==◌, arith, leb, false,
  Bool-cases, none, some, done, ret_succ, Returns, Returns-map,
}
use tcpframe.Time.Laws.{IsNormal}
use tcpframe.MinHeap.{null, MinHeap, with_index, parent, shift_down, shift_down_loop, shift_up}
use tcpframe.MinHeap.Order.{
  rank, IsHeap, IsValid, Stands, Holds, strip, view, HasHole, rank-strip, placed, place-done,
}
use tcpframe.MinHeap.Hole.{with_index-strip}
use tcpframe.MinHeap.Up.{UpInv, Settled, shift_up-Settled}
use tcpframe.MinHeap.Down.{DownInv, shift_down-Settled}

-- The heap has lost exactly the node `p`, whose index is reset.
pub record Removed (h : MinHeap) (p : ℕ) (h' : MinHeap) : Type 0 where
  pub valid : IsValid h'
  pub shrunk : h'.node_used + 1 ≡ h.node_used
  pub capacity : h'.node_capacity ≡ h.node_capacity
  pub members : (q : ℕ) → Holds h' q ↔ (Holds h q × (q ≢ p))
  pub reset : (h'.nodes p).heap_index ≡ none
  pub nodes : (q : ℕ) → strip (h'.nodes q) ≡ strip (h.nodes q)
  pub others : (q : ℕ) → ¬ Holds h q → h'.nodes q ≡ h.nodes q

-- The sift is done, and the count and the index of the removed node are still to be set.
pub record Sifted (n : ℕ) (h : MinHeap) (p : ℕ) (h' : MinHeap) : Type 0 where
  pub heap : IsHeap n h'
  pub used : h'.node_used ≡ h.node_used
  pub capacity : h'.node_capacity ≡ h.node_capacity
  pub members : (q : ℕ) → Stands n h'.slots q ↔ (Holds h q × (q ≢ p))
  pub nodes : (q : ℕ) → strip (h'.nodes q) ≡ strip (h.nodes q)
  pub others : (q : ℕ) → ¬ Holds h q → h'.nodes q ≡ h.nodes q

-- A heap but for the deadline of the node in slot `i`, which may have been set anew.
pub record IsHeapBut (h : MinHeap) (i : ℕ) : Type 0 where
  pub fits : h.node_used ≤ h.node_capacity
  pub nonnull : (j : ℕ) → j < h.node_used → h.slots j ≢ null
  pub index : (j : ℕ) → j < h.node_used → (h.nodes (h.slots j)).heap_index ≡ some j
  pub normal : (p : ℕ) → IsNormal (h.nodes p).timeout
  pub edges :
      (c : ℕ)
      → 0 < c
      → c < h.node_used
      → c ≢ i
      → parent c ≢ i
      → rank h (h.slots (parent c)) ≤ rank h (h.slots c)
  pub bridged :
      (c : ℕ)
      → 0 < c
      → c < h.node_used
      → parent c ≡ i
      → 0 < i
      → rank h (h.slots (parent i)) ≤ rank h (h.slots c)

pub IsValid-IsHeapBut : (h : MinHeap) (i : ℕ) → IsValid h → i < h.node_used → IsHeapBut h i
IsValid-IsHeapBut h i v lt = record {
  fits = v.fits;
  nonnull = v.nonnull;
  index = v.index;
  normal = v.normal;
  edges = λ c p q r s. v.order c p q;
  bridged = λ c p q r s. ground (arith, v.order c, v.order i);
}

pub distinct :
    (h : MinHeap)
    → ((j : ℕ) → j < h.node_used → (h.nodes (h.slots j)).heap_index ≡ some j)
    → (j k : ℕ) → j < h.node_used
    → k < h.node_used
    → h.slots j ≡ h.slots k
    → j ≡ k
distinct h index j k p q e = ground (arith, index j p, index k q)

module _ (h : MinHeap) (i : ℕ) (v : IsHeapBut h i) (n : ℕ) (size : h.node_used ≡ suc n) where
  hollow : i < n → HasHole n h i (h.slots n)
  hollow lt = record {
    fits = omega (arith, v.fits);
    inside = lt;
    solid = v.nonnull n (omega arith);
    nonnull = λ j p q. v.nonnull j (omega arith);
    index = λ j p q. v.index j (omega arith);
    fresh = λ j p q e. absurd (omega (arith, distinct h v.index j n (omega arith) (omega arith) e));
    normal = v.normal;
  }

  start_down :
      i < n → (0 < i → rank h (h.slots (parent i)) ≤ rank h (h.slots n)) → DownInv n h i (h.slots n)
  start_down lt above = record {
    hollow = hollow lt;
    used = size;
    room = omega (arith, v.fits);
    last = refl;
    edges = λ c p q r. ground (arith, v.edges c, above);
    bridged = λ c p q r s. v.bridged c p (omega arith) r s;
  }

  start_up :
      i < n → 0 < i → rank h (h.slots n) < rank h (h.slots (parent i)) → UpInv n h i (h.slots n)
  start_up lt pos above = record {
    hollow = hollow lt;
    edges = λ c p q r. ground (arith, v.edges c, v.bridged c);
    bridged = λ c p q r s. v.bridged c p (omega arith) r s;
  }

  view_members : i < n → (q : ℕ) → Stands n (view h i (h.slots n)) q ↔ (Holds h q × (q ≢ h.slots i))
  view_members lt q = (
    λ (j, p, e). elim (Bool-cases (i == j)) [
      | inl hit ↦ (
        (n, omega arith, ground arith),
        λ f.
            absurd
              (omega (arith, distinct h v.index n i (omega arith) (omega arith) (ground arith))),
      )
      | inr miss ↦ (
        (j, omega arith, ground arith),
        λ f. ground (arith, distinct h v.index j i (omega arith) (omega arith) (ground arith)),
      )
    ],
    λ ((j, p, e), ne). elim (Bool-cases (j == n)) [
      | inl hit ↦ (i, lt, ground arith)
      | inr miss ↦ (j, ground arith, ground arith)
    ],
  )

  Settled-Sifted : i < n → (h' : MinHeap) → Settled n h i (h.slots n) h' → Sifted n h (h.slots i) h'
  Settled-Sifted lt h' (heap, kept) = record {
    heap = heap;
    used = kept.used;
    capacity = kept.capacity;
    members = λ q. (
      λ s. (view_members lt q).0 ((kept.same q).1 s),
      λ s. (kept.same q).0 ((view_members lt q).1 s),
    );
    nodes = kept.nodes;
    others = λ q out. kept.others q (λ s. out ((view_members lt q).0 s).0);
  }

  -- The last node itself is removed: it is put back into its slot, behind the heap that is left.
  placed-Sifted : i ≡ n → Sifted n h (h.slots i) (placed h i (h.slots n))
  placed-Sifted e = record {
    heap = record {
      fits = omega (arith, v.fits);
      nonnull = λ j p. ground (arith, v.nonnull j);
      order = λ c p q. ground (
        arith,
        rank-strip h (placed h i (h.slots n)) (h.slots c)
            (with_index-strip h (h.slots n) (h.slots c) (some i)),
        rank-strip h (placed h i (h.slots n)) (h.slots (parent c))
            (with_index-strip h (h.slots n) (h.slots (parent c)) (some i)),
        v.edges c,
      );
      index = λ j p. ground (arith, v.index j, distinct h v.index j n);
      normal = λ p. ground (arith, v.normal p);
    };
    used = refl;
    capacity = refl;
    members = λ q. (
      λ (j, p, f). (
        (j, omega arith, ground arith),
        λ g.
            absurd
              (omega (arith, distinct h v.index j i (omega arith) (omega arith) (ground arith))),
      ),
      λ ((j, p, f), ne). (j, ground arith, ground arith),
    );
    nodes = λ q. with_index-strip h (h.slots n) q (some i);
    others = λ q out. elim (Bool-cases (h.slots n == q)) [
      | inl hit ↦ absurd (out (n, omega arith, ground arith))
      | inr miss ↦ rw miss
    ];
  }

  last_stays : i ≡ n → shift_down h i (h.slots n) ≡ done (ret_succ, placed h i (h.slots n))
  unfolding shift_down shift_down_loop
  last_stays e =
      let solid : (h.slots n == null) ≡ false = ground (arith, v.nonnull n) in
      let leaf : leb (2 * (i + 1)) h.node_used ≡ false = ground arith in
      rw
        (
          solid,
          leaf,
          place-done h i (h.slots n) (omega (arith, v.fits)) (v.nonnull n (omega arith)),
        )
        refl

  -- Shifting down from a slot whose parent is due no later than the last node.
  pub down-Sifted :
      i < suc n
      → (0 < i → rank h (h.slots (parent i)) ≤ rank h (h.slots n))
      → Returns (λ (r, h'). (r ≡ ret_succ) × Sifted n h (h.slots i) h') (shift_down h i (h.slots n))
  down-Sifted lt above = elim (Bool-cases (i == n)) [
    | inl last ↦ let e : i ≡ n = ground arith in rw (last_stays e) (refl, placed-Sifted e)
    | inr inner ↦
        let lt' : i < n = ground arith in
        Returns-map _ _ (shift_down h i (h.slots n))
          (shift_down-Settled n h i (h.slots n) (start_down lt' above))
          λ (r, h') (ok, s). (ok, Settled-Sifted lt' h' s)
  ]

  -- Shifting up from a slot whose parent is due later than the last node.
  pub up-Sifted :
      i < n
      → 0 < i
      → rank h (h.slots n) < rank h (h.slots (parent i))
      → Returns (λ (r, h'). (r ≡ ret_succ) × Sifted n h (h.slots i) h') (shift_up h i (h.slots n))
  up-Sifted lt pos above =
      Returns-map _ _ (shift_up h i (h.slots n))
        (shift_up-Settled n h i (h.slots n) (start_up lt pos above))
        λ (r, h') (ok, s). (ok, Settled-Sifted lt h' s)

-- The index of a node outside the heap does not matter to it.
reset-IsHeap :
    (n used : ℕ) (h : MinHeap) (p : ℕ)
    → used ≡ n
    → ¬ Stands n h.slots p
    → IsHeap n h
    → IsHeap used (with_index (record h { node_used = used }) p none)
reset-IsHeap n used h p e out v = record {
  fits = omega (arith, v.fits);
  nonnull = λ j lt. v.nonnull j (omega arith);
  order = λ c pos lt. ground (
    arith,
    rank-strip h (with_index h p none) (h.slots c) (with_index-strip h p (h.slots c) none),
    rank-strip h (with_index h p none) (h.slots (parent c))
        (with_index-strip h p (h.slots (parent c)) none),
    v.order c,
  );
  index = λ j lt. elim (Bool-cases (p == h.slots j)) [
    | inl hit ↦ absurd (out (j, omega arith, ground arith))
    | inr miss ↦ rw miss (v.index j (omega arith))
  ];
  normal = λ q. ground (arith, v.normal q);
}

pub reset-Removed :
    (n : ℕ) (h : MinHeap) (p : ℕ) (h' : MinHeap)
    → h.node_used ≡ suc n
    → Holds h p
    → Sifted n h p h'
    → Removed h p (with_index (record h' { node_used = h'.node_used - 1 }) p none)
reset-Removed n h p h' size held s = record {
  valid =
      reset-IsHeap n (h'.node_used - 1) h' p (omega (arith, s.used))
        (λ stands. ((s.members p).0 stands).1 refl) s.heap;
  shrunk = omega (arith, s.used);
  capacity = s.capacity;
  members = λ q. (
    λ (j, p, e). (s.members q).0 (j, omega (arith, s.used), e),
    λ both. let (j, p, e) = (s.members q).1 both in (j, omega (arith, s.used), e),
  );
  reset = ground arith;
  nodes = λ q. with_index-strip h' p q none ∙ s.nodes q;
  others = λ q out. elim (Bool-cases (p == q)) [
    | inl hit ↦ absurd (out (held.0, held.1, ground arith))
    | inr miss ↦ rw miss (s.others q out)
  ];
}
