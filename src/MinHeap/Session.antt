-- ===== src/MinHeap/Session.antt =====
-- The heap as the queue of timers that its callers see, with the calls on it: the timers that were
-- put in and not yet taken or cancelled.
use tcpframe.Prelude.{
  ℕ, ◌-◌, ◌<◌, ◌≤◌, ◌≡◌, none, ◌≢◌, ◌↔◌, ◌⊎◌, Bool, true, false, List, [], ◌∷◌, ◌==◌, if◌then◌else◌,
  update, done, Ret, ret_succ, ret_fail,
}
use tcpframe.Time.{Timeval}
use tcpframe.Time.Laws.{usecs, IsNormal}
use tcpframe.MinHeap.{
  null, TimeoutEvent, MinHeap, parent, create, push, pop, erase, get_top_element,
}
use tcpframe.MinHeap.Order.{rank, IsValid, Holds}

-- What a caller has done, with what it was told: it dates a node, puts it in, cancels it, takes the
-- first one out, or looks at it.
pub data Event : Type 0 where
  dates_node : ℕ → Timeval → Event
  put cancelled : ℕ → Ret → Event
  took looked : ℕ → Event

-- The node with its new deadline, as RegisterTimerOutEvent sets it.
abbrev pub with_timeout : MinHeap → ℕ → Timeval → MinHeap
with_timeout h p t = record h { nodes = update h.nodes p (record (h.nodes p) { timeout = t }) }

-- The timers that wait, the last event first.
unfoldable pub waiting : List Event → ℕ → Bool
waiting [] q = false
waiting (put p ret_succ ∷ es) q = if p == q then true else waiting es q
waiting (took p ∷ es) q = if p == q then false else waiting es q
waiting (cancelled p ret_succ ∷ es) q = if p == q then false else waiting es q
waiting (put p ret_fail ∷ es) q = waiting es q
waiting (cancelled p ret_fail ∷ es) q = waiting es q
waiting (looked p ∷ es) q = waiting es q
waiting (dates_node p t ∷ es) q = waiting es q

-- A node whose index is reset, or one of the heap that the last node can replace without going up.
abbrev pub CanCancel : MinHeap → ℕ → Type 0
CanCancel h p =
    ((h.nodes p).heap_index ≡ none)
    ⊎ ((i : ℕ) × (i < h.node_used)
        × (h.slots i ≡ p)
        × (0 < i → rank h (h.slots (parent i)) ≤ rank h (h.slots (h.node_used - 1))))

module _ (realloc : ℕ → Bool) (nodes : ℕ → TimeoutEvent) (pid : ℕ) where
  -- When a timer is due.
  unfoldable pub due : List Event → ℕ → ℕ
  due [] q = usecs (nodes q).timeout
  due (dates_node p t ∷ es) q = if p == q then usecs t else due es q
  due (put p r ∷ es) q = due es q
  due (cancelled p r ∷ es) q = due es q
  due (took p ∷ es) q = due es q
  due (looked p ∷ es) q = due es q

  -- NULL where no timer waits, and else a timer that waits and is due no later than any other.
  abbrev pub IsFirst : List Event → ℕ → Type 0
  IsFirst es p =
      ((p ≡ null) × ((q : ℕ) → waiting es q ≡ false))
      ⊎ ((p ≢ null) × (waiting es p ≡ true) × ((q : ℕ) → waiting es q ≡ true → due es p ≤ due es q))

  -- Every answer was right when it was given. A timer is refused only where realloc finds no memory,
  -- and a node is cancelled just where it waits.
  unfoldable pub Right : List Event → Type 0
  Right [] = Unit
  Right (dates_node p t ∷ es) = Right es
  Right (put p ret_succ ∷ es) = Right es
  Right (put p ret_fail ∷ es) = ((n : ℕ) × (realloc n ≡ false)) × Right es
  Right (cancelled p ret_succ ∷ es) = (waiting es p ≡ true) × Right es
  Right (cancelled p ret_fail ∷ es) = (waiting es p ≡ false) × Right es
  Right (took p ∷ es) = IsFirst es p × Right es
  Right (looked p ∷ es) = IsFirst es p × Right es

  -- The calls on a heap that MinheapCreate made: only timers that do not wait are dated or put in,
  -- and MinheapErase is called only where the last node need not go up.
  pub data Session : List Event → MinHeap → Type 0 where
    created : Session [] (create nodes pid)
    dates :
        {es1 : List Event} {h1 : MinHeap} (p : ℕ) (t : Timeval)
        → Session es1 h1
        → IsNormal t
        → waiting es1 p ≡ false
        → Session (dates_node p t ∷ es1) (with_timeout h1 p t)
    puts :
        {es1 : List Event} {h1 h2 : MinHeap} (p : ℕ) (r : Ret)
        → Session es1 h1
        → p ≢ null
        → waiting es1 p ≡ false
        → push realloc h1 p ≡ done (r, h2)
        → Session (put p r ∷ es1) h2
    cancels :
        {es1 : List Event} {h1 h2 : MinHeap} (p : ℕ) (r : Ret)
        → Session es1 h1
        → CanCancel h1 p
        → erase h1 p ≡ done (r, h2)
        → Session (cancelled p r ∷ es1) h2
    takes :
        {es1 : List Event} {h1 h2 : MinHeap} (p : ℕ)
        → Session es1 h1
        → pop h1 ≡ done (p, h2)
        → Session (took p ∷ es1) h2
    looks :
        {es1 : List Event} {h1 : MinHeap} (p : ℕ)
        → Session es1 h1
        → get_top_element h1 ≡ done p
        → Session (looked p ∷ es1) h1

  -- The heap is in order, and it is the queue that the events describe.
  pub record Represents (es : List Event) (h : MinHeap) : Type 0 where
    pub valid : IsValid h
    pub members : (q : ℕ) → Holds h q ↔ (waiting es q ≡ true)
    pub ranks : (q : ℕ) → rank h q ≡ due es q
    pub right : Right es
