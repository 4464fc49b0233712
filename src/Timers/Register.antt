-- ===== src/Timers/Register.antt =====
-- A timer that is registered stands in the heap, at the cached time plus its interval.
use tcpframe.Prelude.{
  ℕ, ◌+◌, ◌-◌, ◌*◌, ◌/◌, ◌%◌, ◌≤◌, ◌<◌, ◌≡◌, refl, ◌≢◌, ◌↔◌, ◌⊎◌, inl, inr, ◌∙◌, Bool, true, false,
  Bool-cases, ◌==◌, update, arith, none, done, ◌>>=◌, ret_succ, Returns, Returns-bind,
}
use tcpframe.Time.Laws.{usecs, IsNormal, usecs-timeradd, timeradd-IsNormal}
use tcpframe.MinHeap
use tcpframe.MinHeap.{null, MinHeap, new_capacity, parent}
use tcpframe.MinHeap.Order.{rank, IsValid, Holds, strip, rank-strip}
use tcpframe.MinHeap.Insert.{push-Pushed}
use tcpframe.MinHeap.Remove.{Removed, IsHeapBut, IsValid-IsHeapBut, distinct}
use tcpframe.MinHeap.Erase.{erase-Removed, erase-outside}
use tcpframe.Reactor.{EventBase}
use tcpframe.Timers.{interval_of, schedule, register_timer_out_event, unregister_timer_out_event}

-- The heap with the node's new deadline, before the node is moved.
abbrev pub rescheduled : EventBase → ℕ → ℕ → MinHeap
rescheduled b p ms = record b.heap {
  nodes = update b.heap.nodes p (schedule b.time_cache (b.heap.nodes p) ms);
}

-- The timer is in the heap, due `ms / 1000` seconds and `ms % 1000` microseconds after the cached
-- time; the other timers are as before.
pub record Registered (b : EventBase) (p ms : ℕ) (b' : EventBase) : Type 0 where
  pub valid : IsValid b'.heap
  pub members : (q : ℕ) → Holds b'.heap q ↔ (Holds b.heap q ⊎ (q ≡ p))
  pub deadline : rank b'.heap p ≡ usecs b.time_cache + ms / 1000 * 1000000 + ms % 1000
  pub others : (q : ℕ) → q ≢ p → rank b'.heap q ≡ rank b.heap q
  pub now : b'.time_cache ≡ b.time_cache

schedule_deadline :
    (b : EventBase) (p ms : ℕ)
    → rank (rescheduled b p ms) p ≡ usecs b.time_cache + ms / 1000 * 1000000 + ms % 1000
unfolding schedule interval_of
schedule_deadline b p ms =
    let self : (p == p) ≡ true = ground arith in
    rw self (omega (arith, usecs-timeradd b.time_cache (interval_of ms)))

reschedule_other :
    (b : EventBase) (p ms q : ℕ) → q ≢ p → rank (rescheduled b p ms) q ≡ rank b.heap q
reschedule_other b p ms q ne = ground arith

-- A node that is in no heap may get a new deadline.
rescheduled-IsValid :
    (b : EventBase) (p ms : ℕ)
    → IsValid b.heap
    → IsNormal b.time_cache
    → ¬ Holds b.heap p
    → IsValid (rescheduled b p ms)
unfolding schedule interval_of
rescheduled-IsValid b p ms v n out = record {
  fits = v.fits;
  nonnull = v.nonnull;
  order = λ c q r.
      rw
        (
          reschedule_other b p ms (b.heap.slots c) (λ e. out (c, r, e)),
          reschedule_other b p ms (b.heap.slots (parent c)) (λ e. out (parent c, omega arith, e)),
        )
        (v.order c q r);
  index = λ i lt. ground (arith, v.index i lt);
  normal = λ q. ground (arith, v.normal q, timeradd-IsNormal b.time_cache (interval_of ms) n);
}

-- The push that ends RegisterTimerOutEvent, on a heap that does not hold the node.
pushed-Registered :
    (realloc : ℕ → Bool) (b : EventBase) (p ms : ℕ) (h : MinHeap)
    → IsValid h
    → p ≢ null
    → ¬ Holds h p
    → ((h.node_used < h.node_capacity)
        ⊎ (realloc (new_capacity h.node_capacity (h.node_used + 1)) ≡ true))
    → ((q : ℕ) → (Holds h q ⊎ (q ≡ p)) ↔ (Holds b.heap q ⊎ (q ≡ p)))
    → ((q : ℕ) → strip (h.nodes q) ≡ strip ((rescheduled b p ms).nodes q))
    → Returns
        (λ (r, b'). (r ≡ ret_succ) × Registered b p ms b')
        (MinHeap.push realloc h p >>= λ (_, h'). done (ret_succ, record b { heap = h' }))
pushed-Registered realloc b p ms h v solid out room same nodes =
    Returns-bind _ _ (MinHeap.push realloc h p) _ (push-Pushed realloc h p v solid out room)
      λ (r, h') (ok, pushed).
        let kept : (q : ℕ) → rank h' q ≡ rank (rescheduled b p ms) q =
          λ q. rank-strip (rescheduled b p ms) h' q (pushed.nodes q ∙ nodes q) in
        (
          refl,
          record {
            valid = pushed.valid;
            members = λ q. (
              λ s. (same q).0 ((pushed.members q).0 s),
              λ s. (pushed.members q).1 ((same q).1 s),
            );
            deadline = kept p ∙ schedule_deadline b p ms;
            others = λ q ne. kept q ∙ reschedule_other b p ms q ne;
            now = refl;
          },
        )

-- Registering a timer that is in no heap (its index is -1), where the array has room or realloc
-- finds memory.
pub register_new :
    (realloc : ℕ → Bool) (b : EventBase) (p ms : ℕ)
    → IsValid b.heap
    → IsNormal b.time_cache
    → p ≢ null
    → (b.heap.nodes p).heap_index ≡ none
    → ((b.heap.node_used < b.heap.node_capacity)
        ⊎ (realloc (new_capacity b.heap.node_capacity (b.heap.node_used + 1)) ≡ true))
    → Returns
        (λ (r, b'). (r ≡ ret_succ) × Registered b p ms b')
        (register_timer_out_event realloc b p ms)
unfolding register_timer_out_event schedule
register_new realloc b p ms v n solid outside room =
    let nonnull : (p == null) ≡ false = ground arith in
    rw (nonnull, erase-outside (rescheduled b p ms) p still)
      (pushed-Registered realloc b p ms (rescheduled b p ms) (rescheduled-IsValid b p ms v n out)
        solid out room (λ q. (λ s. s, λ s. s)) λ q. refl)
  where
    out : ¬ Holds b.heap p
    out (i, lt, e) = ground (arith, v.index i lt)

    still : ((rescheduled b p ms).nodes p).heap_index ≡ none
    still = ground arith

rescheduled-IsHeapBut :
    (b : EventBase) (i ms : ℕ)
    → IsValid b.heap
    → IsNormal b.time_cache
    → i < b.heap.node_used
    → IsHeapBut (rescheduled b (b.heap.slots i) ms) i
unfolding schedule interval_of
rescheduled-IsHeapBut b i ms v n lt = record {
  fits = v.fits;
  nonnull = v.nonnull;
  index = λ j q. ground (arith, v.index j q);
  normal = λ q. ground (arith, v.normal q, timeradd-IsNormal b.time_cache (interval_of ms) n);
  edges = λ c p q r s. rw (kept c q r, kept (parent c) (omega arith) s) (v.order c p q);
  bridged = λ c p q r s.
      rw (kept c q (omega arith), kept (parent i) (omega arith) (omega arith))
        (ground (arith, v.order c, v.order i));
}
  where
    kept :
        (j : ℕ)
        → j < b.heap.node_used
        → j ≢ i
        → rank (rescheduled b (b.heap.slots i) ms) (b.heap.slots j) ≡ rank b.heap (b.heap.slots j)
    kept j q ne =
        reschedule_other b (b.heap.slots i) ms (b.heap.slots j)
          (λ e. ne (distinct b.heap v.index j i q lt e))

-- Registering a timer again that is in the heap moves it to its new deadline, where the last timer
-- is not due before the parent of the node's slot.
pub register_again :
    (realloc : ℕ → Bool) (b : EventBase) (i ms : ℕ)
    → IsValid b.heap
    → IsNormal b.time_cache
    → i < b.heap.node_used
    → (0 < i
        → rank (rescheduled b (b.heap.slots i) ms) (b.heap.slots (parent i))
          ≤ rank (rescheduled b (b.heap.slots i) ms) (b.heap.slots (b.heap.node_used - 1)))
    → Returns
        (λ (r, b'). (r ≡ ret_succ) × Registered b (b.heap.slots i) ms b')
        (register_timer_out_event realloc b (b.heap.slots i) ms)
unfolding register_timer_out_event
register_again realloc b i ms v n lt above =
    let p = b.heap.slots i in
    let set = rescheduled b p ms in
    let nonnull : (p == null) ≡ false = ground (arith, v.nonnull i) in
    rw nonnull (
      Returns-bind _ _ (MinHeap.erase set p) _
        (erase-Removed set i (rescheduled-IsHeapBut b i ms v n lt) lt above)
        λ (r, h) (ok, removed).
          pushed-Registered realloc b p ms h removed.valid (v.nonnull i lt)
            (λ held. ((removed.members p).0 held).1 refl)
            (inl (omega (arith, removed.shrunk, removed.capacity, v.fits)))
            (λ q. (
              λ s. elim s [ inl held ↦ inl ((removed.members q).0 held).0 | inr e ↦ inr e ],
              λ s. elim (Bool-cases (q == p)) [
                | inl hit ↦ inr (ground arith)
                | inr miss ↦ elim s [
                  | inl held ↦ inl ((removed.members q).1 (held, ground arith))
                  | inr e ↦ inr e
                ]
              ],
            ))
            removed.nodes)

-- UnregisterTimerOutEvent of a timer of the heap takes exactly that one out, and changes nothing of
-- the base but the heap, where the last timer is not due before the parent of the timer's slot.
pub unregister-Removed :
    (b : EventBase) (i : ℕ)
    → IsValid b.heap
    → i < b.heap.node_used
    → (0 < i
        → rank b.heap (b.heap.slots (parent i)) ≤ rank b.heap (b.heap.slots (b.heap.node_used - 1)))
    → Returns
        (λ (r, b').
          (r ≡ ret_succ)
          × Removed b.heap (b.heap.slots i) b'.heap
          × (b' ≡ record b { heap = b'.heap }))
        (unregister_timer_out_event b (b.heap.slots i))
unfolding unregister_timer_out_event
unregister-Removed b i v lt above =
    let nonnull : (b.heap.slots i == null) ≡ false = ground (arith, v.nonnull i) in
    rw nonnull (
      Returns-bind _ _ (MinHeap.erase b.heap (b.heap.slots i)) _
        (erase-Removed b.heap i (IsValid-IsHeapBut b.heap i v lt) lt above)
        λ (r, h) (ok, removed). (ok, removed, refl))
