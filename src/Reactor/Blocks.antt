-- ===== src/Reactor/Blocks.antt =====
-- The memory of an EventBase: what __CreateNewEventBase allocates and frees, and __DeleteEventBase.
use tcpframe.Prelude.{
  ℕ, Bool, true, false, not, none, some, ◌==◌, if◌then◌else◌, Run, done, fault, ◌>>=◌,
}
use tcpframe.Os.{Os}
use tcpframe.Reactor.{epoll_size}

-- The blocks of a base, in the order in which they are allocated.
pub data Block : Type 0 where
  base_block events_block cells_block cache_block heap_block : Block

-- Which of them are allocated, and whether the epoll descriptor is open.
pub record Held : Type 0 where
  pub base : Bool
  pub events : Bool
  pub cells : Bool
  pub cache : Bool
  pub heap : Bool
  pub epoll : Bool

abbrev pub nothing_held : Held
nothing_held = record {
  base = false;
  events = false;
  cells = false;
  cache = false;
  heap = false;
  epoll = false;
}

abbrev pub holds : Held → Block → Bool
holds h base_block = h.base
holds h events_block = h.events
holds h cells_block = h.cells
holds h cache_block = h.cache
holds h heap_block = h.heap

abbrev pub with_block : Held → Block → Bool → Held
with_block h base_block x = record h { base = x }
with_block h events_block x = record h { events = x }
with_block h cells_block x = record h { cells = x }
with_block h cache_block x = record h { cache = x }
with_block h heap_block x = record h { heap = x }

-- free() of a block that is not allocated is a fault.
unfoldable pub free : Block → Held → Run Held
free b h = if holds h b then done (with_block h b false) else fault

-- `if (p) free(p)`
unfoldable pub free_if_there : Block → Held → Run Held
free_if_there b h = if holds h b then free b h else done h

-- __DeleteEventBase of a base that is not NULL. Neither the array of the heap nor the epoll
-- descriptor is looked at.
unfoldable pub delete_event_base : Held → Run Held
delete_event_base h =
    free_if_there cache_block h
    >>= free_if_there events_block
    >>= free_if_there cells_block
    >>= free_if_there heap_block
    >>= free base_block

module _ (os : Os) where
  open os use {World, epoll_create, gettimeofday, malloc}

  -- What is held when __CreateNewEventBase returns, on the same calls of the system as
  -- create_new_event_base.
  unfoldable pub blocks_of_creation : World → ℕ → Run Held
  blocks_of_creation w event_size =
      let (base_ok, w1) = malloc w 1 in
      let (epfd, w2) = epoll_create w1 in
      let (events_ok, w3) = malloc w2 epoll_size in
      let (cells_ok, w4) = malloc w3 event_size in
      let (cache_ok, w5) = malloc w4 1 in
      let (now, w6) = gettimeofday w5 in
      let (heap_ok, w7) = malloc w6 1 in
      let h1 = with_block nothing_held base_block true in
      let h2 = record h1 { epoll = true } in
      let h3 = with_block h2 events_block true in
      let h4 = with_block h3 cells_block true in
      let h5 = with_block h4 cache_block true in
      if event_size == 0
      then done nothing_held
      else if not base_ok
      then done nothing_held
      else elim epfd [
        | none ↦ free base_block h1
        | some fd ↦
            if not events_ok
            then free base_block h2
            else if not cells_ok
            then (free events_block h3 >>= free base_block)
            else if not cache_ok
            then (free cells_block h4 >>= free events_block >>= free base_block)
            else if not heap_ok
            then (free cells_block h5
                >>= free events_block
                >>= free cache_block
                >>= free base_block)
            else done (with_block h5 heap_block true)
      ]
