-- ===== src/MinHeap/Queue.antt =====
-- The calls of a session on the heap are calls on the queue of timers.
use tcpframe.Prelude.{
  ℕ, ◌+◌, ◌≤◌, ◌<◌, ◌≡◌, refl, subst, ap, ◌∙◌, ◌≢◌, inl, inr, Bool, Bool-cases, true, false,
  if◌then◌else◌, ◌↔◌, List, [], ◌∷◌, ltb, ◌==◌, arith, ret_succ, ret_fail, Returns, Returns-map,
}
use tcpframe.Time.{Timeval}
use tcpframe.Time.Laws.{IsNormal}
use tcpframe.MinHeap.{
  null, TimeoutEvent, MinHeap, create, push, pop, get_top_element, erase, new_capacity, parent,
}
use tcpframe.MinHeap.Order.{rank, Holds, rank-strip}
use tcpframe.MinHeap.Insert.{Pushed, push-Pushed, push-full}
use tcpframe.MinHeap.Remove.{Removed, IsValid-IsHeapBut}
use tcpframe.MinHeap.Erase.{
  pop-Removed, pop-empty, get_top_element_lem, erase-Removed, erase-outside,
}
use tcpframe.MinHeap.Session.{
  Event, dates_node, put, cancelled, CanCancel, took, looked, with_timeout, waiting, due, IsFirst,
  Right, Session, created, dates, puts, cancels, takes, looks, Represents,
}

module _ (realloc : ℕ → Bool) (nodes : ℕ → TimeoutEvent) (pid : ℕ) where
  created-Represents :
      ((p : ℕ) → IsNormal (nodes p).timeout) → Represents realloc nodes pid [] (create nodes pid)
  unfolding create waiting due Right
  created-Represents normal = record {
    valid = record {
      fits = omega arith;
      nonnull = λ i lt. absurd (omega arith);
      order = λ c pos lt. absurd (omega arith);
      index = λ i lt. absurd (omega arith);
      normal = normal;
    };
    members = λ q. (λ (i, lt, e). absurd (omega arith), λ e. absurd (ground (arith, e)));
    ranks = λ q. refl;
    right = tt;
  }

  module _ (es : List Event) (h : MinHeap) (v : Represents realloc nodes pid es h) where
    outside : (p : ℕ) → waiting es p ≡ false → ¬ Holds h p
    outside p out held = ground (arith, out, (v.members p).0 held)

    -- What stands in a slot is not `p`, if `p` does not wait.
    differs : (p i : ℕ) → waiting es p ≡ false → i < h.node_used → (p == h.slots i) ≡ false
    differs p i out lt = elim (Bool-cases (p == h.slots i)) [
      | inl hit ↦ absurd (outside p out (i, lt, ground arith))
      | inr miss ↦ miss
    ]

    redated-Represents :
        (p : ℕ) (t : Timeval)
        → IsNormal t
        → waiting es p ≡ false
        → Represents realloc nodes pid (dates_node p t ∷ es) (with_timeout h p t)
    unfolding waiting due Right
    redated-Represents p t normal out = record {
      valid = record {
        fits = v.valid.fits;
        nonnull = v.valid.nonnull;
        order = λ c pos lt.
            rw (differs p c out lt, differs p (parent c) out (omega arith))
              (v.valid.order c pos lt);
        index = λ i lt. rw (differs p i out lt) (v.valid.index i lt);
        normal = λ q. ground (arith, v.valid.normal q);
      };
      members = v.members;
      ranks = λ q. ground (arith, v.ranks q);
      right = v.right;
    }

    Pushed-Represents :
        (p : ℕ) (h' : MinHeap)
        → Pushed h p h'
        → Represents realloc nodes pid (put p ret_succ ∷ es) h'
    unfolding waiting due Right
    Pushed-Represents p h' pushed = record {
      valid = pushed.valid;
      members = λ q. (
        λ held. elim ((pushed.members q).0 held) [
          | inl before ↦ ground (arith, (v.members q).0 before)
          | inr new ↦ ground (arith, new)
        ],
        λ waits. (pushed.members q).1 (elim (Bool-cases (p == q)) [
          | inl hit ↦ inr (ground arith)
          | inr miss ↦ inl ((v.members q).1 (ground (arith, waits, miss)))
        ]),
      );
      ranks = λ q. rank-strip h h' q (pushed.nodes q) ∙ v.ranks q;
      right = v.right;
    }

    refused-Represents :
        (p n : ℕ) → realloc n ≡ false → Represents realloc nodes pid (put p ret_fail ∷ es) h
    unfolding waiting due Right
    refused-Represents p n none_left = record {
      valid = v.valid;
      members = v.members;
      ranks = v.ranks;
      right = ((n, none_left), v.right);
    }

    -- MinHeapPush of a timer that does not wait returns, and the heap is the queue with it, or realloc
    -- has found no memory.
    pub push-Represents :
        (p : ℕ)
        → p ≢ null
        → waiting es p ≡ false
        → Returns (λ (r, h'). Represents realloc nodes pid (put p r ∷ es) h') (push realloc h p)
    push-Represents p solid out =
        let size = new_capacity h.node_capacity (h.node_used + 1) in
        let grown = push-Pushed realloc h p v.valid solid (outside p out) in
        elim (Bool-cases (ltb h.node_used h.node_capacity)) [
          | inl room ↦
              Returns-map _ _ (push realloc h p) (grown (inl (ground arith)))
                λ (r, h') (ok, pushed). rw ok (Pushed-Represents p h' pushed)
          | inr full ↦ elim (Bool-cases (realloc size)) [
            | inl found ↦
                Returns-map _ _ (push realloc h p) (grown (inr found))
                  λ (r, h') (ok, pushed). rw ok (Pushed-Represents p h' pushed)
            | inr none_left ↦
                rw (push-full realloc h p (ground arith) none_left)
                  (refused-Represents p size none_left)
          ]
        ]

    empty-IsFirst : h.node_used ≡ 0 → IsFirst realloc nodes pid es null
    empty-IsFirst bare = inl (
      refl,
      λ q. elim (Bool-cases (waiting es q)) [
        | inl waits ↦ let (i, lt, e) = (v.members q).1 waits in absurd (omega (arith, bare))
        | inr out ↦ out
      ],
    )

    held-IsFirst :
        (p : ℕ)
        → Holds h p
        → ((q : ℕ) → Holds h q → rank h p ≤ rank h q)
        → IsFirst realloc nodes pid es p
    held-IsFirst p held least =
        let (i, lt, e) = held in
        inr (
          λ z. v.valid.nonnull i lt (e ∙ z),
          (v.members p).0 held,
          λ q waits. ground (arith, least q ((v.members q).1 waits), v.ranks p, v.ranks q),
        )

    Removed-members :
        (p : ℕ) (h' : MinHeap)
        → Removed h p h'
        → (q : ℕ) → Holds h' q ↔ ((if p == q then false else waiting es q) ≡ true)
    Removed-members p h' removed q = (
      λ held.
          let (before, ne) = (removed.members q).0 held in
          ground (arith, (v.members q).0 before, ne),
      λ waits. elim (Bool-cases (p == q)) [
        | inl hit ↦ absurd (ground (arith, waits, hit))
        | inr miss ↦
            (removed.members q).1 ((v.members q).1 (ground (arith, waits, miss)), ground arith)
      ],
    )

    cancelled-Represents :
        (p : ℕ) (h' : MinHeap)
        → waiting es p ≡ true
        → Removed h p h'
        → Represents realloc nodes pid (cancelled p ret_succ ∷ es) h'
    unfolding waiting due Right
    cancelled-Represents p h' waits removed = record {
      valid = removed.valid;
      members = Removed-members p h' removed;
      ranks = λ q. rank-strip h h' q (removed.nodes q) ∙ v.ranks q;
      right = (waits, v.right);
    }

    -- MinheapErase of a node whose index is reset, or of one that the last node can replace without
    -- going up, returns, and the heap is the queue without it.
    pub erase-Represents :
        (p : ℕ)
        → CanCancel h p
        → Returns (λ (r, h'). Represents realloc nodes pid (cancelled p r ∷ es) h') (erase h p)
    unfolding waiting due Right
    erase-Represents p (inl outside) = rw (erase-outside h p outside) (record {
      valid = v.valid;
      members = v.members;
      ranks = v.ranks;
      right = (
        elim (Bool-cases (waiting es p)) [
          | inl waits ↦
              let (i, lt, e) = (v.members p).1 waits in
              absurd
                (ground (arith, v.valid.index i lt, outside, ap (λ x. (h.nodes x).heap_index) e))
          | inr out ↦ out
        ],
        v.right,
      );
    })
    erase-Represents p (inr (i, lt, e, above)) =
        subst
          (λ x.
            Returns (λ (r, h'). Represents realloc nodes pid (cancelled x r ∷ es) h') (erase h x))
          e
          (Returns-map _ _ (erase h (h.slots i))
            (erase-Removed h i (IsValid-IsHeapBut h i v.valid lt) lt above)
            λ (r, h') (ok, removed). rw ok (
              cancelled-Represents (h.slots i) h' ((v.members (h.slots i)).0 (i, lt, refl))
                removed))

    removed-Represents :
        (p : ℕ) (h' : MinHeap)
        → IsFirst realloc nodes pid es p
        → Removed h p h'
        → Represents realloc nodes pid (took p ∷ es) h'
    unfolding waiting due Right
    removed-Represents p h' first removed = record {
      valid = removed.valid;
      members = Removed-members p h' removed;
      ranks = λ q. rank-strip h h' q (removed.nodes q) ∙ v.ranks q;
      right = (first, v.right);
    }

    -- MinheapPop returns, and the heap is the queue without a timer that was due first.
    pub pop-Represents : Returns (λ (p, h'). Represents realloc nodes pid (took p ∷ es) h') (pop h)
    unfolding waiting due Right
    pop-Represents = elim (Bool-cases (h.node_used == 0)) [
      | inl bare ↦
          let first = empty-IsFirst (ground arith) in
          rw (pop-empty h (ground arith)) (record {
            valid = v.valid;
            members = λ q. (
              λ (i, lt, e). absurd (ground (arith, bare)),
              λ waits. (v.members q).1 (ground (arith, waits)),
            );
            ranks = v.ranks;
            right = (first, v.right);
          })
      | inr busy ↦
          Returns-map _ _ (pop h) (pop-Removed h v.valid (ground arith))
            λ (p, h') (held, least, removed).
              removed-Represents p h' (held-IsFirst p held least) removed
    ]

    -- MinheapGetTopElement returns a timer that is due first, and NULL where there is none.
    pub get_top_element-Represents :
        Returns (λ p. Represents realloc nodes pid (looked p ∷ es) h) (get_top_element h)
    unfolding waiting due Right
    get_top_element-Represents =
        Returns-map _ _ (get_top_element h) (get_top_element_lem h v.valid) λ p found. record {
          valid = v.valid;
          members = v.members;
          ranks = v.ranks;
          right = (
            elim found [
              | inl (bare, e) ↦ rw e (empty-IsFirst bare)
              | inr (held, ne, least) ↦ held-IsFirst p held least
            ],
            v.right,
          );
        }

  session-Represents :
      ((p : ℕ) → IsNormal (nodes p).timeout)
      → (es : List Event) (h : MinHeap) → Session realloc nodes pid es h
      → Represents realloc nodes pid es h
  session-Represents normal es h created = created-Represents normal
  session-Represents normal es h (dates {es1} {h1} p t calls date out) =
      redated-Represents es1 h1 (session-Represents normal es1 h1 calls) p t date out
  session-Represents normal es h (puts {es1} {h1} {h2} p r calls solid out e) =
      subst (Returns (λ (r, h'). Represents realloc nodes pid (put p r ∷ es1) h')) e
        (push-Represents es1 h1 (session-Represents normal es1 h1 calls) p solid out)
  session-Represents normal es h (cancels {es1} {h1} {h2} p r calls can e) =
      subst (Returns (λ (r, h'). Represents realloc nodes pid (cancelled p r ∷ es1) h')) e
        (erase-Represents es1 h1 (session-Represents normal es1 h1 calls) p can)
  session-Represents normal es h (takes {es1} {h1} {h2} p calls e) =
      subst (Returns (λ (p, h'). Represents realloc nodes pid (took p ∷ es1) h')) e
        (pop-Represents es1 h1 (session-Represents normal es1 h1 calls))
  session-Represents normal es h (looks {es1} {h1} p calls e) =
      subst (Returns (λ p. Represents realloc nodes pid (looked p ∷ es1) h1)) e
        (get_top_element-Represents es1 h1 (session-Represents normal es1 h1 calls))

  -- After any sequence of MinHeapPush, MinheapErase, MinheapPop and MinheapGetTopElement on a heap
  -- that MinheapCreate made, and of new deadlines for nodes in between, where all deadlines are
  -- normal, only timers that do not wait are dated and put in, and MinheapErase is called for nodes
  -- whose index is reset or whose parent is not due later than the last node: the heap is in order,
  -- holds exactly the timers that were put in and not taken or cancelled since, each with its
  -- deadline, and every answer was a timer that was due first then, or NULL where none waited; a
  -- timer was refused only where realloc found no memory, and MinheapErase failed just where the
  -- node did not wait. And the next of these calls, under the same conditions, comes back, and the
  -- heap is again the queue that the events describe.
  pub session-Refines :
      ((p : ℕ) → IsNormal (nodes p).timeout)
      → (es : List Event) (h : MinHeap) → Session realloc nodes pid es h
      → Represents realloc nodes pid es h
        × ((p : ℕ)
            → p ≢ null
            → waiting es p ≡ false
            → Returns
                (λ (r, h'). Represents realloc nodes pid (put p r ∷ es) h')
                (push realloc h p))
        × ((p : ℕ)
            → CanCancel h p
            → Returns (λ (r, h'). Represents realloc nodes pid (cancelled p r ∷ es) h') (erase h p))
        × Returns (λ (p, h'). Represents realloc nodes pid (took p ∷ es) h') (pop h)
        × Returns (λ p. Represents realloc nodes pid (looked p ∷ es) h) (get_top_element h)
  session-Refines normal es h calls =
      let v = session-Represents normal es h calls in
      (
        v,
        push-Represents es h v,
        erase-Represents es h v,
        pop-Represents es h v,
        get_top_element-Represents es h v,
      )
