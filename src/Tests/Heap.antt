-- ===== src/Tests/Heap.antt =====
-- Heaps of a few timers.
use tcpframe.Prelude.{
  ℕ, ◌+◌, ◌-◌, ◌<◌, ◌≤◌, ◌≡◌, ◌≢◌, ◌↔◌, inl, true, Option, none, some, ◌==◌, if◌then◌else◌, arith,
  Returns, ret_succ,
}
use tcpframe.Time.{Timeval}
use tcpframe.MinHeap.{TimeoutEvent, MinHeap, parent, connection_timeout, push, pop, erase}
use tcpframe.MinHeap.Order.{rank, IsValid, Holds}
use tcpframe.MinHeap.Insert.{Pushed, push-Pushed}
use tcpframe.MinHeap.Remove.{Removed, IsValid-IsHeapBut}
use tcpframe.MinHeap.Erase.{pop-Removed, erase-Removed, erase_up_forgets}

abbrev pub timer : Option ℕ → ℕ → TimeoutEvent
timer index sec = record {
  pid = 42;
  fd = 7;
  heap_index = index;
  timeout = record { sec = sec; usec = 250000 };
  interval = record { sec = 60; usec = 0 };
  callback = some connection_timeout;
  callback_arg = 5;
}

-- The nodes 1, 2 and 3 in the slots 0, 1 and 2; the node 4 is in no heap.
abbrev pub three_timers : MinHeap
three_timers = record {
  slots = λ i. i + 1;
  node_capacity = 16;
  node_used = 3;
  cur_pid = 42;
  nodes = λ p. timer (if p == 4 then none else some (p - 1)) (1000 + p);
}

pub three_timers-IsValid : IsValid three_timers
three_timers-IsValid = record {
  fits = omega arith;
  nonnull = λ i lt. omega arith;
  order = λ c pos lt. omega arith;
  index = λ i lt. ground arith;
  normal = λ p. omega arith;
}

-- Six nodes, of which the subtree of slot 1 is due later than the last.
abbrev sec_of : ℕ → ℕ
sec_of p = if p == 2 then 10 else if p == 4 then 11 else if p == 5 then 12 else p

abbrev six_timers : MinHeap
six_timers = record {
  slots = λ i. i + 1;
  node_capacity = 16;
  node_used = 6;
  cur_pid = 42;
  nodes = λ p. timer (some (p - 1)) (sec_of p);
}

six_timers-IsValid : IsValid six_timers
six_timers-IsValid = record {
  fits = omega arith;
  nonnull = λ i lt. omega arith;
  order = λ c pos lt. ground arith;
  index = λ i lt. ground arith;
  normal = λ p. omega arith;
}

pop-Removed_example :
    Returns
      (λ (p, h').
        Holds three_timers p
        × ((q : ℕ) → Holds three_timers q → rank three_timers p ≤ rank three_timers q)
        × Removed three_timers p h')
      (pop three_timers)
pop-Removed_example = pop-Removed three_timers three_timers-IsValid (omega arith)

push-Pushed_example :
    Returns (λ (r, h'). (r ≡ ret_succ) × Pushed three_timers 4 h') (push (λ n. true) three_timers 4)
push-Pushed_example =
    push-Pushed (λ n. true) three_timers 4 three_timers-IsValid (omega arith)
      (λ (i, lt, e). omega arith) (inl (omega arith))

erase-Removed_example :
    Returns (λ (r, h'). (r ≡ ret_succ) × Removed three_timers 2 h') (erase three_timers 2)
erase-Removed_example =
    erase-Removed three_timers 1
      (IsValid-IsHeapBut three_timers 1 three_timers-IsValid (omega arith)) (omega arith)
      (λ _. omega arith)

erase_up_forgets_example :
    Returns
      (λ (r, h').
        (r ≡ ret_succ)
        × ((q : ℕ) → Holds h' q ↔ (Holds six_timers q × (q ≢ 4)))
        × ((c : ℕ)
            → 0 < c
            → c < h'.node_used
            → rank h' (h'.slots (parent c)) ≤ rank h' (h'.slots c))
        × Holds h' 6
        × ((h'.nodes 6).heap_index ≡ none)
        × ¬ IsValid h')
      (erase six_timers 4)
erase_up_forgets_example =
    erase_up_forgets six_timers 3 (IsValid-IsHeapBut six_timers 3 six_timers-IsValid (omega arith))
      (omega arith) (omega arith) (omega arith) (omega arith)

abbrev early : Timeval
early = record { sec = 7; usec = 900000 }

abbrev late : Timeval
late = record { sec = 9; usec = 100000 }
