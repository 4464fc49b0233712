-- ===== src/Reactor/Types.antt =====
-- The state of include/reactor.h, and its creation in src/reactor.c.
use tcpframe.Prelude.{
  ℕ, Bool, not, Option, none, some, ltb, ◌==◌, if◌then◌else◌, update, Run, done, fault, ◌>>=◌, Ret,
  ret_succ, ret_fail,
}
use tcpframe.Prelude.Int.{ℤ, pos}
use tcpframe.Time.{Timeval}
use tcpframe.MinHeap
use tcpframe.MinHeap.{MinHeap, null}
use tcpframe.Os.{
  Os, Mask, CtlOp, ctl_add, ctl_mod, ctl_del, event_none, event_readable, overlaps, union, without,
  is_none,
}

-- The functions of src/socket_util.c that the program registers for a descriptor.
pub data EventCallback : Type 0 where
  process_accept process_recv process_send : EventCallback

pub record FdEvent : Type 0 where
  pub mask : Mask
  pub callback_write : Option EventCallback
  pub callback_read : Option EventCallback
  pub arg : ℕ

-- enum EPOLL_VARS
abbrev pub epoll_et_type : ℕ
epoll_et_type = 1

abbrev pub epoll_lt_type : ℕ
epoll_lt_type = 2

-- EPOLL_EVENT_BASE_STOP is 0 and EPOLL_EVENT_BASE_START is 1, kept in an int.
abbrev pub epoll_event_base_stop : ℕ
epoll_event_base_stop = 0

pub record EventBase : Type 0 where
  pub size : ℕ
  pub fd_event_array_size : ℕ
  pub stop_sign : ℕ
  pub ep_type : ℕ
  pub epfd : ℕ
  pub listen_fd : ℕ
  pub client_count : ℤ
  pub time_cache : Timeval
  pub heap : MinHeap
  pub fd_events : ℕ → FdEvent

-- __EventBaseStop
unfoldable pub event_base_stop : EventBase → EventBase
event_base_stop b = record b { stop_sign = epoll_event_base_stop }

-- FdFileEventInit
unfoldable pub fd_file_event_init : EventBase → ℕ → Run (Ret × EventBase)
fd_file_event_init b fd =
    if ltb fd b.fd_event_array_size
    then done (
      ret_succ,
      record b {
        fd_events =
            update b.fd_events fd (record {
              mask = event_none;
              callback_write = none;
              callback_read = none;
              arg = null;
            });
      },
    )
    else fault

abbrev pub with_event : EventBase → ℕ → FdEvent → EventBase
with_event b fd ev = record b { fd_events = update b.fd_events fd ev }

-- The cell after EventAdd: the new bits, their callback, and the argument for both callbacks.
abbrev pub register : FdEvent → Mask → EventCallback → ℕ → FdEvent
register ev mask callback arg = record {
  mask = union ev.mask mask;
  callback_write = if mask.writable then some callback else ev.callback_write;
  callback_read = if mask.readable then some callback else ev.callback_read;
  arg = arg;
}

-- The first registration of a descriptor adds it to epoll, and the last removal deletes it.
abbrev pub add_op : Mask → CtlOp
add_op m = if is_none m then ctl_add else ctl_mod

abbrev pub del_op : Mask → CtlOp
del_op rest = if is_none rest then ctl_del else ctl_mod

abbrev pub ctl_ret : Bool → Ret
ctl_ret ok = if ok then ret_succ else ret_fail

abbrev pub epoll_size : ℕ
epoll_size = 2048

module _ (os : Os) where
  open os use {World, epoll_create, epoll_ctl, gettimeofday, malloc, getpid}

  -- __CreateNewEventBase. The blocks are, in order, the base, the array for epoll_wait, the table,
  -- the cached time and the header of the heap; each failure returns NULL, which is `none`. The
  -- table comes from malloc, so its cells hold what `cells` has, and so do the nodes.
  unfoldable pub create_new_event_base :
      World → ℕ → (ℕ → FdEvent) → (ℕ → MinHeap.TimeoutEvent) → Option EventBase × World
  create_new_event_base w event_size cells nodes =
      let (base_ok, w1) = malloc w 1 in
      let (epfd, w2) = epoll_create w1 in
      let (events_ok, w3) = malloc w2 epoll_size in
      let (cells_ok, w4) = malloc w3 event_size in
      let (cache_ok, w5) = malloc w4 1 in
      let (now, w6) = gettimeofday w5 in
      let (heap_ok, w7) = malloc w6 1 in
      if event_size == 0 then (none, w) else if not base_ok then (none, w1) else elim epfd [
        | none ↦ (none, w2)
        | some fd ↦
            if not events_ok
            then (none, w3)
            else if not cells_ok
            then (none, w4)
            else if not cache_ok
            then (none, w5)
            else if not heap_ok
            then (none, w7)
            else (
              some (record {
                size = event_size;
                fd_event_array_size = event_size;
                stop_sign = 0;
                ep_type = 0;
                epfd = fd;
                listen_fd = 0;
                client_count = pos 0;
                time_cache = now;
                heap = MinHeap.create nodes (getpid w7);
                fd_events = cells;
              }),
              w7,
            )
      ]

  -- EventAdd. The guard lets a descriptor equal to the size of the table pass. The table is
  -- written before epoll_ctl is asked.
  unfoldable pub event_add :
      World → EventBase → ℕ → Mask → EventCallback → ℕ → Run (Ret × EventBase × World)
  event_add w b fd mask callback arg =
      let ev = b.fd_events fd in
      let (ok, w') = epoll_ctl w (add_op ev.mask) fd (union ev.mask mask) in
      if ltb b.fd_event_array_size fd
      then done (ret_fail, b, w)
      else if fd == b.fd_event_array_size
      then fault
      else if overlaps ev.mask mask
      then done (ret_succ, b, w)
      else done (ctl_ret ok, with_event b fd (register ev mask callback arg), w')

  -- EventDel, with the same guard.
  unfoldable pub event_del : World → EventBase → ℕ → Mask → Run (Ret × EventBase × World)
  event_del w b fd mask =
      let ev = b.fd_events fd in
      let rest = without ev.mask mask in
      let (ok, w') = epoll_ctl w (del_op rest) fd rest in
      if ltb b.fd_event_array_size fd
      then done (ret_fail, b, w)
      else if fd == b.fd_event_array_size
      then fault
      else if is_none ev.mask
      then done (ret_succ, b, w)
      else if not (overlaps ev.mask mask)
      then done (ret_succ, b, w)
      else done (ctl_ret ok, with_event b fd (record ev { mask = rest }), w')

  -- EventBaseCreate: the base of a listening descriptor, which is watched for new connections.
  unfoldable pub event_base_create :
      World → ℕ → ℕ → (ℕ → FdEvent) → (ℕ → MinHeap.TimeoutEvent) → Run (Option EventBase × World)
  event_base_create w fd max_event_size cells nodes =
      let (created, w') = create_new_event_base w max_event_size cells nodes in
      elim created [
        | none ↦ done (none, w')
        | some b ↦
            event_add w' (record b { listen_fd = fd; ep_type = epoll_lt_type }) fd event_readable
              process_accept null
            >>= λ (r, b', w''). elim r [
              | ret_succ ↦ done (some b', w'')
              | ret_fail ↦ done (none, w'')
            ]
      ]
