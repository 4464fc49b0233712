-- ===== src/Tests/Queue.antt =====
-- Two timers that are put into a new heap, the first one taken out, and the other one cancelled.
use tcpframe.Prelude.{
  ℕ, ◌≡◌, ◌≢◌, refl, Bool, true, false, List, [], ◌∷◌, none, Run, done, ret_succ, inr, Returns,
  arith,
}
use tcpframe.Time.{Timeval, timercmp_gt}
use tcpframe.MinHeap.{
  null, TimeoutEvent, MinHeap, create, push, pop, erase, erase_at, finish_erase, get_top_element,
  load, store, set_index, node_cmp_greater, new_capacity, reserve_size, place, move, shift_up,
  shift_up_loop, shift_down, shift_down_loop, min_child, finish_push, push_reserved, finish_pop,
}
use tcpframe.MinHeap.Session.{
  Event, dates_node, put, cancelled, CanCancel, took, looked, with_timeout, waiting, Session,
  created, dates, puts, takes, cancels, Represents,
}
use tcpframe.MinHeap.Queue.{session-Refines}
use tcpframe.Tests.Heap.{timer}

abbrev enough : ℕ → Bool
enough n = true

abbrev fresh_nodes : ℕ → TimeoutEvent
fresh_nodes p = timer none 1000

abbrev later : Timeval
later = record { sec = 2000; usec = 0 }

abbrev heap_of {ℓ} : {A : Type ℓ} → Run (A × MinHeap) → MinHeap
heap_of (done (a, h)) = h
heap_of _ = create fresh_nodes 42

abbrev dated_one : MinHeap
dated_one = with_timeout (create fresh_nodes 42) 1 later

abbrev one_timer : MinHeap
one_timer = heap_of (push enough dated_one 1)

abbrev two_timers : MinHeap
two_timers = heap_of (push enough one_timer 2)

abbrev first_taken : MinHeap
first_taken = heap_of (pop two_timers)

abbrev cancelled_one : MinHeap
cancelled_one = heap_of (erase first_taken 1)

abbrev history : List Event
history = cancelled 1 ret_succ ∷ took 2 ∷ put 2 ret_succ ∷ put 1 ret_succ ∷ dates_node 1 later ∷ []

taken_session : Session enough fresh_nodes 42 history cancelled_one
unfolding create push reserve_size new_capacity push_reserved shift_up shift_up_loop place move load
    store set_index node_cmp_greater timercmp_gt finish_push pop shift_down shift_down_loop
    min_child finish_pop erase erase_at finish_erase waiting
taken_session =
    cancels 1 ret_succ
      (takes 2
        (puts 2 ret_succ
          (puts 1 ret_succ (dates 1 later created (omega arith) refl) (omega arith) refl refl)
          (omega arith) refl refl)
        refl)
      (inr (0, omega arith, refl, λ pos. absurd (omega arith))) refl

session-Refines_example :
    Represents enough fresh_nodes 42 history cancelled_one
    × ((p : ℕ)
        → p ≢ null
        → waiting history p ≡ false
        → Returns
            (λ (r, h'). Represents enough fresh_nodes 42 (put p r ∷ history) h')
            (push enough cancelled_one p))
    × ((p : ℕ)
        → CanCancel cancelled_one p
        → Returns
            (λ (r, h'). Represents enough fresh_nodes 42 (cancelled p r ∷ history) h')
            (erase cancelled_one p))
    × Returns
        (λ (p, h'). Represents enough fresh_nodes 42 (took p ∷ history) h')
        (pop cancelled_one)
    × Returns
        (λ p. Represents enough fresh_nodes 42 (looked p ∷ history) cancelled_one)
        (get_top_element cancelled_one)
session-Refines_example =
    session-Refines enough fresh_nodes 42 (λ p. omega arith) history cancelled_one taken_session
