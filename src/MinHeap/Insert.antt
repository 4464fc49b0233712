-- ===== src/MinHeap/Insert.antt =====
-- MinheapReserveSize and MinHeapPush.
use tcpframe.Prelude.{
  ℕ, suc, ◌+◌, ◌≤◌, ◌<◌, ◌≡◌, refl, ◌≢◌, ◌⊎◌, ◌↔◌, inl, inr, ◌==◌, arith, leb, Bool, true, false,
  Bool-cases, done, ret_succ, ret_fail, Returns, Returns-bind, Returns-map,
}
use tcpframe.MinHeap.{
  null, MinHeap, new_capacity, reserve_size, shift_up, finish_push, push_reserved, push,
}
use tcpframe.MinHeap.Order.{IsValid, IsHeap-recount, Stands, Holds, strip, view}
use tcpframe.MinHeap.Up.{UpInv, Settled, shift_up-Settled}

-- What MinHeapPush leaves when it succeeds: a heap of the old nodes and `e`, in which no node has
-- changed but for its index, and only nodes of the heap have changed.
pub record Pushed (h : MinHeap) (e : ℕ) (h' : MinHeap) : Type 0 where
  pub valid : IsValid h'
  pub grown : h'.node_used ≡ h.node_used + 1
  pub members : (p : ℕ) → Holds h' p ↔ (Holds h p ⊎ (p ≡ e))
  pub nodes : (p : ℕ) → strip (h'.nodes p) ≡ strip (h.nodes p)
  pub others : (p : ℕ) → ¬ Holds h p → p ≢ e → h'.nodes p ≡ h.nodes p

start-UpInv :
    (h : MinHeap) (e : ℕ)
    → IsValid h
    → h.node_used < h.node_capacity
    → e ≢ null
    → ¬ Holds h e
    → UpInv (suc h.node_used) h h.node_used e
start-UpInv h e v room solid out = record {
  hollow = record {
    fits = room;
    inside = omega arith;
    solid = solid;
    nonnull = λ i p q. v.nonnull i (omega arith);
    index = λ i p q. v.index i (omega arith);
    fresh = λ i p q eq. out (i, omega arith, eq);
    normal = v.normal;
  };
  edges = λ c p q r. ground (arith, v.order c);
  bridged = λ c p q r. absurd (omega arith);
}

view-members :
    (h : MinHeap) (e p : ℕ)
    → Stands (suc h.node_used) (view h h.node_used e) p ↔ (Holds h p ⊎ (p ≡ e))
view-members h e p = (
  λ (i, lt, eq). elim (Bool-cases (h.node_used == i)) [
    | inl hit ↦ inr (ground arith)
    | inr miss ↦ inl (i, ground arith, ground arith)
  ],
  λ s. elim s [
    | inl (i, lt, eq) ↦ (i, omega arith, ground arith)
    | inr eq ↦ (h.node_used, omega arith, ground arith)
  ],
)

Settled-Pushed :
    (h : MinHeap) (e : ℕ) (h' : MinHeap)
    → Settled (suc h.node_used) h h.node_used e h'
    → Pushed h e (record h' { node_used = h'.node_used + 1 })
Settled-Pushed h e h' (heap, kept) = record {
  valid =
      IsHeap-recount h' (suc h.node_used) (h'.node_used + 1) _ _ (omega (arith, kept.used))
        (omega (arith, kept.used, heap.fits)) heap;
  grown = omega (arith, kept.used);
  members = λ p. (
    λ (i, lt, eq). (view-members h e p).0 ((kept.same p).1 (i, omega (arith, kept.used), eq)),
    λ s.
        let (i, lt, eq) = (kept.same p).0 ((view-members h e p).1 s) in
        (i, omega (arith, kept.used), eq),
  );
  nodes = kept.nodes;
  others = λ p out ne.
      kept.others p (λ s. elim ((view-members h e p).0 s) [ inl held ↦ out held | inr eq ↦ ne eq ]);
}

push_reserved-Pushed :
    (h : MinHeap) (e : ℕ)
    → IsValid h
    → h.node_used < h.node_capacity
    → e ≢ null
    → ¬ Holds h e
    → Returns (λ (r, h'). (r ≡ ret_succ) × Pushed h e h') (push_reserved (ret_succ, h) e)
unfolding push_reserved finish_push
push_reserved-Pushed h e v room solid out =
    Returns-bind _ _ (shift_up h h.node_used e) _
      (shift_up-Settled (suc h.node_used) h h.node_used e (start-UpInv h e v room solid out))
      λ (r, h') (ok, s). rw ok (refl, Settled-Pushed h e h' s)

-- MinheapReserveSize makes room for one more node, or says that it cannot.
pub reserve_size_room :
    (realloc : ℕ → Bool) (h : MinHeap)
    → IsValid h
    → ((h.node_used < h.node_capacity)
        ⊎ (realloc (new_capacity h.node_capacity (h.node_used + 1)) ≡ true))
    → (capacity : ℕ) × (h.node_used < capacity)
      × (reserve_size realloc h (h.node_used + 1)
          ≡ (ret_succ, record h { node_capacity = capacity }))
unfolding reserve_size new_capacity
reserve_size_room realloc h v room = elim (Bool-cases (leb (h.node_used + 1) h.node_capacity)) [
  | inl enough ↦ (h.node_capacity, ground arith, rw enough)
  | inr full ↦ (new_capacity h.node_capacity (h.node_used + 1), ground arith, ground arith)
]

-- A push of a node that is not in the heap, where the array has room or realloc finds memory,
-- succeeds and gives a heap of the old nodes and the new one.
pub push-Pushed :
    (realloc : ℕ → Bool) (h : MinHeap) (e : ℕ)
    → IsValid h
    → e ≢ null
    → ¬ Holds h e
    → ((h.node_used < h.node_capacity)
        ⊎ (realloc (new_capacity h.node_capacity (h.node_used + 1)) ≡ true))
    → Returns (λ (r, h'). (r ≡ ret_succ) × Pushed h e h') (push realloc h e)
unfolding push
push-Pushed realloc h e v solid out room =
    let (capacity, more, reserved) = reserve_size_room realloc h v room in
    let grown = record h { node_capacity = capacity } in
    let valid = IsHeap-recount h _ _ h.node_used capacity refl (omega arith) v in
    let nonnull : (e == null) ≡ false = ground arith in
    rw (nonnull, reserved)
      (Returns-map _ _ (push_reserved (ret_succ, grown) e)
        (push_reserved-Pushed grown e valid more solid out)
        λ (r, h') (ok, s). (
          ok,
          record {
            valid = s.valid;
            grown = s.grown;
            members = s.members;
            nodes = s.nodes;
            others = s.others;
          },
        ))

-- Where realloc fails the heap is left as it was, and the caller is told.
pub push-full :
    (realloc : ℕ → Bool) (h : MinHeap) (e : ℕ)
    → h.node_capacity ≤ h.node_used
    → realloc (new_capacity h.node_capacity (h.node_used + 1)) ≡ false
    → push realloc h e ≡ done (ret_fail, h)
unfolding push reserve_size push_reserved
push-full realloc h e full refused = ground arith
