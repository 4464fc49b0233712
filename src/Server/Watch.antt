-- ===== src/Server/Watch.antt =====
-- A connection is watched for writing, and its timer starts anew.
use tcpframe.Prelude.{
  ℕ, ◌-◌, ◌≤◌, ◌<◌, ◌≡◌, refl, ap, ◌≢◌, inl, inr, Bool, Bool-cases, true, false, ltb, ◌==◌, arith,
  done, ret_succ, ret_fail, update,
}
use tcpframe.Prelude.Safe.{Safe, Safe-done, Safe-exits}
use tcpframe.Prelude.Unless.{Unless, Unless-if, Unless-bind, Unless-done, Unless-any}
use tcpframe.Time.Laws.{IsNormal}
use tcpframe.MinHeap
use tcpframe.MinHeap.{null, parent}
use tcpframe.MinHeap.Order.{rank, IsValid}
use tcpframe.Os.{Os, OsLaws, event_writable, overlaps, union}
use tcpframe.Reactor.{EventBase, FdEvent, process_send, event_add, register, with_event, add_op}
use tcpframe.Reactor.Events.{Mirrors, event_add-registers}
use tcpframe.Timers.{schedule, register_timer_out_event}
use tcpframe.Timers.Register.{Registered, rescheduled}
use tcpframe.Conn.{ConnFd}
use tcpframe.Server.Defs.{Server, with_conn, max_conn_timeout}
use tcpframe.Server.Packets.{watch_write}

-- The timer in slot `i` can be registered again: the heap is in order, and the last timer is not due
-- before the parent of the slot.
pub record CanRestart (b : EventBase) (node i : ℕ) : Type 0 where
  pub valid : IsValid b.heap
  pub clock : IsNormal b.time_cache
  pub inside : i < b.heap.node_used
  pub slot : b.heap.slots i ≡ node
  pub above :
      0 < i
      → rank (rescheduled b (b.heap.slots i) max_conn_timeout) (b.heap.slots (parent i))
        ≤ rank
            (rescheduled b (b.heap.slots i) max_conn_timeout)
            (b.heap.slots (b.heap.node_used - 1))

pub restart_elsewhere :
    (b : EventBase) (cells : ℕ → FdEvent) (node i : ℕ)
    → CanRestart b node i
    → CanRestart (record b { fd_events = cells }) node i
restart_elsewhere b cells node i v = record {
  valid = v.valid;
  clock = v.clock;
  inside = v.inside;
  slot = v.slot;
  above = v.above;
}

pub registered_elsewhere :
    (b : EventBase) (cells : ℕ → FdEvent) (node ms : ℕ) (b' : EventBase)
    → Registered (record b { fd_events = cells }) node ms b'
    → Registered b node ms b'
registered_elsewhere b cells node ms b' r = record {
  valid = r.valid;
  members = r.members;
  deadline = r.deadline;
  others = r.others;
  now = r.now;
}

pub register_timer_rest :
    (realloc : ℕ → Bool) (b : EventBase) (node ms : ℕ)
    → Unless
        (λ (r, b'). b'.fd_events ≡ b.fd_events × b'.fd_event_array_size ≡ b.fd_event_array_size)
        (register_timer_out_event realloc b node ms)
unfolding register_timer_out_event
register_timer_rest realloc b node ms =
    let set = record b.heap {
      nodes = update b.heap.nodes node (schedule b.time_cache (b.heap.nodes node) ms);
    } in
    Unless-if _ (node == null) _ _ (Unless-done _ _ (refl, refl)) (
      Unless-bind _ _ (MinHeap.erase set node) _ (Unless-any _) λ (r, h1) u.
        Unless-bind _ _ (MinHeap.push realloc h1 node) _ (Unless-any _)
          λ (r2, h2) u2. Unless-done _ _ (refl, refl))

module _ (os : Os) (laws : OsLaws os) where
  -- The connection at `p` is `c`, and it is watched for writing; nothing else of the process but its
  -- table has changed, and the bytes that were given to descriptors are the same.
  pub record Watched (w : os.World) (s : Server) (p : ℕ) (c : ConnFd) (s' : Server) (w' : os.World)
      : Type 0 where
    pub conns : s'.conns ≡ (with_conn s p c).conns
    pub base : s'.base ≡ record s.base { fd_events = s'.base.fd_events }
    pub writable : (s'.base.fd_events c.fd).mask.writable ≡ true
    pub mirrors : Mirrors os laws s'.base w'
    pub others : (g : ℕ) → g ≢ c.fd → s'.base.fd_events g ≡ s.base.fd_events g
    pub out : (g : ℕ) → laws.outgoing w' g ≡ laws.outgoing w g

  already_watched :
      (w : os.World) (b : EventBase) (fd p : ℕ)
      → fd < b.fd_event_array_size
      → (b.fd_events fd).mask.writable ≡ true
      → event_add os w b fd event_writable process_send p ≡ done (ret_succ, b, w)
  unfolding event_add
  already_watched w b fd p lt set =
      let in_table : ltb b.fd_event_array_size fd ≡ false = ground arith in
      let not_past : (fd == b.fd_event_array_size) ≡ false = ground arith in
      rw (in_table, not_past, set) refl

  refused :
      (w : os.World) (b : EventBase) (fd p : ℕ)
      → fd < b.fd_event_array_size
      → overlaps (b.fd_events fd).mask event_writable ≡ false
      → (os.epoll_ctl w
          (add_op (b.fd_events fd).mask)
          fd
          (union (b.fd_events fd).mask event_writable)).0
        ≡ false
      → (b' : EventBase) × (w' : os.World) × (event_add os w b fd event_writable process_send p
          ≡ done (ret_fail, b', w'))
  unfolding event_add
  refused w b fd p lt fresh denied =
      let in_table : ltb b.fd_event_array_size fd ≡ false = ground arith in
      let not_past : (fd == b.fd_event_array_size) ≡ false = ground arith in
      let ev = b.fd_events fd in
      (
        with_event b fd (register ev event_writable process_send p),
        (os.epoll_ctl w (add_op ev.mask) fd (union ev.mask event_writable)).1,
        rw (in_table, not_past, fresh, denied) refl,
      )

  pub watch_write-Watched :
      (w : os.World) (s : Server) (p : ℕ) (c : ConnFd)
      → Mirrors os laws s.base w
      → c.fd < s.base.fd_event_array_size
      → Safe (λ (r, s', w'). Watched w s p c s' w') (watch_write os w s p c)
  unfolding watch_write
  watch_write-Watched w s p c mir lt =
      let ev = s.base.fd_events c.fd in
      let asked = os.epoll_ctl w (add_op ev.mask) c.fd (union ev.mask event_writable) in
      let self : (c.fd == c.fd) ≡ true = ground arith in
      elim (Bool-cases ev.mask.writable) [
        | inl set ↦ rw (already_watched w s.base c.fd p lt set) (
            Safe-done _ _ (record {
              conns = refl;
              base = refl;
              writable = set;
              mirrors = mir;
              others = λ g ne. refl;
              out = λ g. refl;
            }))
        | inr clear ↦ elim (Bool-cases asked.0) [
          | inl ok ↦
              let e : asked ≡ (true, asked.1) = ap (λ b. (b, asked.1)) ok in
              let (added, mirrors) =
                event_add-registers os laws w s.base c.fd event_writable mir lt process_send p
                  asked.1 refl (ground arith) e in
              rw added (
                Safe-done _ _ (record {
                  conns = refl;
                  base = refl;
                  writable = ground arith;
                  mirrors = mirrors;
                  others = λ g ne. ground arith;
                  out = λ g. laws.ctl_writes_nothing w _ c.fd _ g;
                }))
          | inr denied ↦
              let (b', w', e) = refused w s.base c.fd p lt (ground arith) denied in
              rw e (Safe-exits _)
        ]
      ]
