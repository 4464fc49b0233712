-- ===== src/Reactor/Create.antt =====
-- EventBaseCreate on a table that malloc has left as it was.
use tcpframe.Prelude.{ℕ, ◌<◌, ◌≡◌, refl, ap, ◌∙◌, true, false, ltb, ◌==◌, arith, some, done}
use tcpframe.Os.{Os, Mask, event_readable, overlaps}
use tcpframe.MinHeap.{TimeoutEvent}
use tcpframe.Reactor.{
  EventBase, FdEvent, epoll_lt_type, create_new_event_base, event_add, event_base_create,
}

readable-overlaps : (m : Mask) → m.readable ≡ true → overlaps m event_readable ≡ true
readable-overlaps m e = ground (arith, e)

-- A base that __CreateNewEventBase has made has as its table the cells that malloc gave.
create_new_event_base-uncleared :
    (os : Os) (w : os.World) (size : ℕ) (cells : ℕ → FdEvent) (nodes : ℕ → TimeoutEvent)
    (b : EventBase)
    → (create_new_event_base os w size cells nodes).0 ≡ some b
    → (b.fd_events ≡ cells) × (b.fd_event_array_size ≡ size)
unfolding create_new_event_base
create_new_event_base-uncleared os w size cells nodes b made =
    (ground (arith, made), ground (arith, made))

-- EventBaseCreate on a table for which malloc gave memory that happens to hold the bit EVENT_READABLE
-- in the cell of the listening descriptor, where __CreateNewEventBase succeeds and the descriptor is
-- inside the table: it succeeds without a call of epoll_ctl, since the world is as
-- __CreateNewEventBase left it, and every cell, with its callback, is whatever the memory held.
pub event_base_create_garbage :
    (os : Os) (w : os.World) (fd size : ℕ) (cells : ℕ → FdEvent) (nodes : ℕ → TimeoutEvent)
    (b : EventBase) (w' : os.World)
    → create_new_event_base os w size cells nodes ≡ (some b, w')
    → fd < size
    → (cells fd).mask.readable ≡ true
    → (b' : EventBase) × (event_base_create os w fd size cells nodes ≡ done (some b', w'))
      × (b'.fd_events ≡ cells)
      × (b'.listen_fd ≡ fd)
unfolding event_base_create event_add
event_base_create_garbage os w fd size cells nodes b w' made lt garbage =
    let made0 : (create_new_event_base os w size cells nodes).0 ≡ some b = ap (λ x. x.0) made in
    let made1 : (create_new_event_base os w size cells nodes).1 ≡ w' = ap (λ x. x.1) made in
    let (same, count) = create_new_event_base-uncleared os w size cells nodes b made0 in
    let in_table : ltb b.fd_event_array_size fd ≡ false = ground (arith, count) in
    let not_past : (fd == b.fd_event_array_size) ≡ false = ground (arith, count) in
    let set : (b.fd_events fd).mask.readable ≡ true =
      ap (λ t. (t fd).mask.readable) same ∙ garbage in
    (
      record b { listen_fd = fd; ep_type = epoll_lt_type },
      rw (
        event_base_create,
        made0,
        made1,
        in_table,
        not_past,
        readable-overlaps (b.fd_events fd).mask set,
      ),
      same,
      refl,
    )
