-- ===== src/Dispatch.antt =====
-- src/reactor.c: ReactorProcessTimeoutEvent and ReactorEventDispatchLoop.
pub mod Loop
pub mod Timeouts
use tcpframe.Prelude.{
  ℕ, zero, suc, ◌+◌, Bool, ◌&&◌, ◌||◌, ltb, leb, ◌==◌, if◌then◌else◌, List, [], ◌∷◌, Option, none,
  some, Run, done, fault, out_of_fuel, ◌>>=◌, Ret,
}
use tcpframe.Prelude.Int.{ℤ, pos}
use tcpframe.Time.{TimeDiff, timercmp_gt}
use tcpframe.MinHeap
use tcpframe.MinHeap.{null, connection_timeout}
use tcpframe.Os.{Os, Mask}
use tcpframe.Reactor.{EventBase, EventCallback, process_accept, process_recv, process_send}
use tcpframe.Timers.{get_epollwait_timeout_value, epollwait_timeout}
use tcpframe.Server.{Server, process_accept_callback, connection_timeout_callback}
use tcpframe.Server.Io.{process_recv_callback, process_send_callback}

-- An entry of the array that epoll_wait fills.
pub record EpollEvent : Type 0 where
  pub fd : ℕ
  pub epollin : Bool
  pub epollout : Bool
  pub epollhup : Bool
  pub epollerr : Bool

-- The bits that an event triggers.
abbrev pub triggered : EpollEvent → Mask
triggered e = record { writable = e.epollout || e.epollhup || e.epollerr; readable = e.epollin }

-- What an accepted connection brings: the pointers that malloc gives for it and for its timer, and
-- the address of the peer.
pub record Client : Type 0 where
  pub conn : ℕ
  pub node : ℕ
  pub ip : List ℕ
  pub port : ℕ

module _ (os : Os) (client : os.World → Client)
    (epoll_wait : os.World → ℤ → Option (List EpollEvent) × os.World) (fuel : ℕ) where
  open os use {World, gettimeofday}

  -- A registered callback, called with its descriptor and argument.
  unfoldable pub call : EventCallback → World → Server → ℕ → ℕ → Run (Server × World)
  call process_accept w s fd arg =
      let c = client w in process_accept_callback os fuel w s fd c.conn c.node c.ip c.port
  call process_recv w s fd arg = process_recv_callback os fuel w s arg
  call process_send w s fd arg = process_send_callback os fuel w s arg

  -- A call through a function pointer that was never set is a fault.
  unfoldable pub call_if :
      Bool → Option EventCallback → World → Server → ℕ → ℕ → Run (Server × World)
  call_if wanted callback w s fd arg =
      let go : Run (Server × World) = elim callback [ none ↦ fault | some f ↦ call f w s fd arg ] in
      if wanted then go else done (s, w)

  -- One event: the read callback, and then, by the table as that left it, the write callback.
  unfoldable pub dispatch_event : World → Server → EpollEvent → Run (Server × World)
  dispatch_event w s e =
      let node = s.base.fd_events e.fd in
      let go : Run (Server × World) = do
        (s1, w1) ← call_if (node.mask.readable && e.epollin) node.callback_read w s e.fd node.arg
        let node1 = s1.base.fd_events e.fd
        call_if (node1.mask.writable && (triggered e).writable) node1.callback_write w1 s1 e.fd
            node1.arg
      in if ltb e.fd s.base.fd_event_array_size then go else fault

  unfoldable pub dispatch_events : World → Server → List EpollEvent → Run (Server × World)
  dispatch_events w s [] = done (s, w)
  dispatch_events w s (e ∷ es) = dispatch_event w s e >>= λ (s', w'). dispatch_events w' s' es

  -- ReactorProcessTimeoutEvent. The callback of a node is called after the node has left the heap.
  unfoldable pub process_timeout_event : ℕ → World → Server → Run (Server × World)
  process_timeout_event zero w s = out_of_fuel
  process_timeout_event (suc k) w s = do
    top ← MinHeap.get_top_element s.base.heap
    let node = s.base.heap.nodes top
    let expire : Run (Server × World) = do
      (p, h) ← MinHeap.pop s.base.heap
      let s1 = record s { base = record s.base { heap = h } }
      (s2, w2) ← elim (node.callback) [
        | none ↦ done (s1, w)
        | some connection_timeout ↦ connection_timeout_callback os w s1 node.callback_arg
      ]
      process_timeout_event k w2 s2
    if top == null
        then done (s, w)
        else if timercmp_gt node.timeout s.base.time_cache
        then done (s, w)
        else expire

  -- One round of the loop of ReactorEventDispatchLoop; `save` is its stTimeSave.
  unfoldable pub dispatch_round : World → Server → TimeDiff → Run (Server × TimeDiff × World)
  dispatch_round w s save = do
    (r, save', b, w1) ← get_epollwait_timeout_value os w s.base save
    let (events, w2) = epoll_wait w1 (epollwait_timeout r save')
    let (now, w3) = gettimeofday w2
    let s1 = record s { base = record b { time_cache = now } }
    elim events [
      | none ↦ done (s1, save', w3)
      | some es ↦ do
        (s2, w4) ← dispatch_events w3 s1 es
        (s3, w5) ← process_timeout_event (suc s2.base.heap.node_used) w4 s2
        done (s3, save', w5)
    ]

  -- ReactorEventDispatchLoop for so many rounds: it goes on while the stop sign is 0.
  unfoldable pub dispatch_loop : ℕ → World → Server → TimeDiff → Run (Server × World)
  dispatch_loop zero w s save = out_of_fuel
  dispatch_loop (suc k) w s save =
      let more = dispatch_round w s save >>= λ (s', save', w'). dispatch_loop k w' s' save' in
      if s.base.stop_sign == 0 then more else done (s, w)
