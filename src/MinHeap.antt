-- ===== src/MinHeap.antt =====
-- include/min_heap.h and src/min_heap.c: the heap of timeouts, an array of pointers to nodes, each
-- of which stores its own position in the array.
--
-- A pointer is a number, with 0 for NULL, and the nodes are a memory from pointers to structs. The
-- pointer array is a block of `node_capacity` cells; a cell outside it cannot be read or written
-- (`fault`). The index -1 of a node that is in no heap is `none`. The header itself is a state of
-- the model, so it is never NULL; realloc is a parameter that says whether it finds memory.
pub mod Order
pub mod Hole
pub mod Up
pub mod Down
pub mod Insert
pub mod Remove
pub mod Erase
pub mod First
pub mod Session
pub mod Queue
use tcpframe.Prelude.{
  ℕ, zero, suc, ◌+◌, ◌-◌, ◌*◌, ◌/◌, Bool, true, false, not, ◌||◌, Option, none, some, ltb, leb,
  ◌==◌, if◌then◌else◌, update, Run, done, exits, fault, out_of_fuel, ◌>>=◌, Ret, ret_succ, ret_fail,
}
use tcpframe.Time.{Timeval, timercmp_gt}

abbrev pub null : ℕ
null = 0

-- The function pointers that the program stores in a node.
pub data TimeoutCallback : Type 0 where
  connection_timeout : TimeoutCallback

pub record TimeoutEvent : Type 0 where
  pub pid : ℕ
  pub fd : ℕ
  pub heap_index : Option ℕ
  pub timeout : Timeval
  pub interval : Timeval
  pub callback : Option TimeoutCallback
  pub callback_arg : ℕ

pub record MinHeap : Type 0 where
  pub slots : ℕ → ℕ
  pub node_capacity : ℕ
  pub node_used : ℕ
  pub cur_pid : ℕ
  pub nodes : ℕ → TimeoutEvent

abbrev pub minheap_init_size : ℕ
minheap_init_size = 16

-- Reads and writes of ppstTimeoutEventHeader[i], and of the iHeapIndex of a node.
unfoldable pub load : MinHeap → ℕ → Run ℕ
load h i = if ltb i h.node_capacity then done (h.slots i) else fault

unfoldable pub store : MinHeap → ℕ → ℕ → Run MinHeap
store h i p =
    if ltb i h.node_capacity then done (record h { slots = update h.slots i p }) else fault

abbrev pub with_index : MinHeap → ℕ → Option ℕ → MinHeap
with_index h p i = record h { nodes = update h.nodes p (record (h.nodes p) { heap_index = i }) }

unfoldable pub set_index : MinHeap → ℕ → Option ℕ → Run MinHeap
set_index h p i = if p == null then fault else done (with_index h p i)

-- MinheapTimeoutEventInit. It leaves both times as they are.
unfoldable pub timeout_event_init : MinHeap → ℕ → Option TimeoutCallback → ℕ → ℕ → ℕ → Ret × MinHeap
timeout_event_init h p callback arg pid fd = if p == null then (ret_fail, h) else (
  ret_succ,
  record h {
    nodes = update h.nodes p (record (h.nodes p) {
      heap_index = none;
      callback = callback;
      callback_arg = arg;
      fd = fd;
      pid = pid;
    });
  },
)

-- __MinheapNodeCmpGreater
unfoldable pub node_cmp_greater : MinHeap → ℕ → ℕ → Run Bool
node_cmp_greater h p q =
    if p == null || q == null
    then exits
    else done (timercmp_gt (h.nodes p).timeout (h.nodes q).timeout)

-- MinheapCreate
unfoldable pub create : (ℕ → TimeoutEvent) → ℕ → MinHeap
create nodes pid = record {
  slots = λ _. null;
  node_capacity = 0;
  node_used = 0;
  cur_pid = pid;
  nodes = nodes;
}

unfoldable pub is_empty : MinHeap → Bool
is_empty h = h.node_used == 0

-- MinheapIsTop of a node that is not NULL
unfoldable pub is_top : MinHeap → ℕ → Bool
is_top h p = elim ((h.nodes p).heap_index) [ none ↦ false | some i ↦ i == 0 ]

unfoldable pub get_cur_size : MinHeap → ℕ
get_cur_size h = h.node_used

-- MinheapGetTopElement. A capacity of 0 is the array pointer NULL of a heap that never grew.
unfoldable pub get_top_element : MinHeap → Run ℕ
get_top_element h =
    if h.node_capacity == 0 then done null else if h.node_used == 0 then done null else load h 0

unfoldable pub new_capacity : ℕ → ℕ → ℕ
new_capacity capacity size =
    let doubled = if capacity == 0 then minheap_init_size else capacity * 2 in
    if ltb doubled size then size else doubled

-- MinheapReserveSize; `realloc` says whether a block of so many cells is found. The cells that
-- realloc adds hold nothing defined, here whatever `slots` has there.
unfoldable pub reserve_size : (ℕ → Bool) → MinHeap → ℕ → Ret × MinHeap
reserve_size realloc h size =
    if leb size h.node_capacity
    then (ret_succ, h)
    else if realloc (new_capacity h.node_capacity size)
    then (ret_succ, record h { node_capacity = new_capacity h.node_capacity size })
    else (ret_fail, h)

-- The position of the parent. At the root the source's unsigned `(0 - 1) / 2` is never used.
abbrev pub parent : ℕ → ℕ
parent i = (i - 1) / 2

-- The last lines of both loops: the node enters the hole.
unfoldable pub place : MinHeap → ℕ → ℕ → Run MinHeap
place h hole e = do h' ← store h hole e; set_index h' e (some hole)

-- One move of the hole: the node in slot `from` enters it.
unfoldable pub move : MinHeap → ℕ → ℕ → Run MinHeap
move h hole from = do p ← load h from; h' ← store h hole p; set_index h' p (some hole)

unfoldable pub shift_up_loop : ℕ → MinHeap → ℕ → ℕ → Run MinHeap
shift_up_loop zero h hole e = out_of_fuel
shift_up_loop (suc k) h hole e =
    let rise = move h hole (parent hole) >>= λ h'. shift_up_loop k h' (parent hole) e in
    let step : Run MinHeap = do
      p ← load h (parent hole)
      greater ← node_cmp_greater h p e
      if greater then rise else place h hole e
    in if hole == 0 then place h hole e else step

-- __MinheapShiftUp
unfoldable pub shift_up : MinHeap → ℕ → ℕ → Run (Ret × MinHeap)
shift_up h hole e =
    if e == null
    then done (ret_fail, h)
    else (do h' ← shift_up_loop (suc hole) h hole e; done (ret_succ, h'))

-- The smaller child of the hole, where its right child is at `right` at most `node_used`.
unfoldable pub min_child : MinHeap → ℕ → Run ℕ
min_child h right = if right == h.node_used then done (right - 1) else do
  r ← load h right
  l ← load h (right - 1)
  greater ← node_cmp_greater h r l
  done (if greater then right - 1 else right)

unfoldable pub shift_down_loop : ℕ → MinHeap → ℕ → ℕ → Run MinHeap
shift_down_loop zero h hole e = out_of_fuel
shift_down_loop (suc k) h hole e =
    let step : Run MinHeap = do
      child ← min_child h (2 * (hole + 1))
      p ← load h child
      greater ← node_cmp_greater h e p
      less ← node_cmp_greater h p e
      let sink = move h hole child >>= λ h'. shift_down_loop k h' child e
      if not greater || less then place h hole e else sink
    in if leb (2 * (hole + 1)) h.node_used then step else place h hole e

-- __MinheapShiftDown
unfoldable pub shift_down : MinHeap → ℕ → ℕ → Run (Ret × MinHeap)
shift_down h hole e =
    if e == null
    then done (ret_fail, h)
    else (do h' ← shift_down_loop (suc h.node_used) h hole e; done (ret_succ, h'))

-- The end of MinHeapPush: the sift, and the count of the nodes.
unfoldable pub finish_push : Ret × MinHeap → Run (Ret × MinHeap)
finish_push (ret_fail, h) = done (ret_fail, h)
finish_push (ret_succ, h) = done (ret_succ, record h { node_used = h.node_used + 1 })

unfoldable pub push_reserved : Ret × MinHeap → ℕ → Run (Ret × MinHeap)
push_reserved (ret_fail, h) e = done (ret_fail, h)
push_reserved (ret_succ, h) e = shift_up h h.node_used e >>= finish_push

-- MinHeapPush
unfoldable pub push : (ℕ → Bool) → MinHeap → ℕ → Run (Ret × MinHeap)
push realloc h e =
    if e == null
    then done (ret_fail, h)
    else push_reserved (reserve_size realloc h (h.node_used + 1)) e

-- The end of MinheapPop, after the sift.
unfoldable pub finish_pop : ℕ → Ret × MinHeap → Run (ℕ × MinHeap)
finish_pop top (ret_fail, h) = done (null, h)
finish_pop top (ret_succ, h) =
    set_index (record h { node_used = h.node_used - 1 }) top none >>= λ h'. done (top, h')

-- MinheapPop; it returns NULL where there is nothing to pop.
unfoldable pub pop : MinHeap → Run (ℕ × MinHeap)
pop h = if h.node_used == 0 then done (null, h) else do
  top ← load h 0
  last ← load h (h.node_used - 1)
  let sift = shift_down h 0 last >>= finish_pop top
  if last == null then done (null, h) else sift

-- The last lines of both branches of MinheapErase: `p` is the node whose index is reset.
unfoldable pub finish_erase : Ret × MinHeap → ℕ → Run (Ret × MinHeap)
finish_erase (ret_fail, h) p = done (ret_fail, h)
finish_erase (ret_succ, h) p = do
  h' ← set_index (record h { node_used = h.node_used - 1 }) p none
  done (ret_succ, h')

-- MinheapErase. The branch that shifts up resets the index of the last node, not of the node that
-- is erased. In an empty heap the last node would be read at index -1.
unfoldable pub erase_at : MinHeap → ℕ → ℕ → Run (Ret × MinHeap)
erase_at h del i = if h.node_used == 0 then fault else do
  last ← load h (h.node_used - 1)
  if last == null then done (ret_fail, h) else do
    let down = shift_down h i last >>= λ r. finish_erase r del
    let up = shift_up h i last >>= λ r. finish_erase r last
    let inner : Run (Ret × MinHeap) = do
      p ← load h (parent i)
      greater ← node_cmp_greater h p last
      if greater then up else down
    if ltb 0 i then inner else down

unfoldable pub erase : MinHeap → ℕ → Run (Ret × MinHeap)
erase h del =
    if del == null
    then done (ret_fail, h)
    else elim ((h.nodes del).heap_index) [ none ↦ done (ret_fail, h) | some i ↦ erase_at h del i ]
