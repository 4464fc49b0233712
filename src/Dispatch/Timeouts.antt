-- ===== src/Dispatch/Timeouts.antt =====
-- ReactorProcessTimeoutEvent calls what is due, and ends.
use tcpframe.Prelude.{
  ℕ, zero, suc, ◌<◌, ◌≡◌, refl, sym, ap, ◌∙◌, subst, inl, inr, ◌≢◌, true, false, Bool-cases, not,
  Option, none, some, ltb, ◌==◌, arith, done, exits, Run, Ret, ret_fail, ret_succ, List, Returns,
  Returns-inv,
}
use tcpframe.Prelude.Int.{ℤ, negsuc, ◌+ℤ◌}
use tcpframe.Prelude.Safe.{Safe, Safe-done, Safe-exits, Safe-if, Safe-bind, Safe-weaken}
use tcpframe.Time.Laws.{usecs, IsNormal, timercmp_gt-ltb}
use tcpframe.MinHeap.{pop, null, MinHeap, TimeoutCallback, connection_timeout}
use tcpframe.MinHeap.Order.{rank, IsValid, Holds}
use tcpframe.MinHeap.Remove.{Removed}
use tcpframe.MinHeap.Erase.{top_least, pop-Removed, erase-outside}
use tcpframe.MinHeap.First.{get_top_element-bare, get_top_element-first, pop-first}
use tcpframe.Os.{Os, event_both, overlaps, is_none}
use tcpframe.Reactor.{EventBase, event_del, fd_file_event_init}
use tcpframe.Timers.{unregister_timer_out_event}
use tcpframe.Conn.{ConnFd}
use tcpframe.Server.{Server, connection_timeout_callback, destroy_conn}
use tcpframe.Server.Defs.{deref, release_conn}
use tcpframe.Dispatch.{Client, EpollEvent, process_timeout_event}

-- The connection that the callback of a timer gets is the one that has the timer.
abbrev pub TimersMatch : Server → Type 0
TimersMatch s =
    (q p : ℕ) (c : ConnFd)
    → Holds s.base.heap q
    → (s.base.heap.nodes q).callback_arg ≡ p
    → s.conns p ≡ some c
    → c.timeout_event ≡ q

-- A callback with an argument finds a connection, whose descriptor is inside the table.
abbrev pub TimersLive : Server → Type 0
TimersLive s =
    (q : ℕ)
    → Holds s.base.heap q
    → (s.base.heap.nodes q).callback_arg ≢ null
    → (c : ConnFd) × (s.conns (s.base.heap.nodes q).callback_arg ≡ some c)
      × (c.fd < s.base.fd_event_array_size)

-- What the callback with the argument `p` of a timer that has left the heap leaves: the heap, the
-- clock and all other connections.
record Called (p : ℕ) (s : Server) (s' : Server) : Type 0 where
  heap : s'.base.heap ≡ s.base.heap
  now : s'.base.time_cache ≡ s.base.time_cache
  size : s'.base.fd_event_array_size ≡ s.base.fd_event_array_size
  old : (g : ℕ) (c : ConnFd) → s'.conns g ≡ some c → s.conns g ≡ some c
  others : (g : ℕ) → g ≢ p → s'.conns g ≡ s.conns g

-- The timers that are left are not due yet; none is new.
pub record Waiting (s : Server) (s' : Server) : Type 0 where
  pub valid : IsValid s'.base.heap
  pub later : (q : ℕ) → Holds s'.base.heap q → usecs s.base.time_cache < rank s'.base.heap q
  pub old : (q : ℕ) → Holds s'.base.heap q → Holds s.base.heap q
  pub now : s'.base.time_cache ≡ s.base.time_cache

module _ (os : Os) where
  open os use {World}

  event_del-heap :
      (w : World) (b : EventBase) (fd : ℕ)
      → fd < b.fd_event_array_size
      → Safe
          (λ (r, b', w').
            (b'.heap ≡ b.heap)
            × (b'.time_cache ≡ b.time_cache)
            × (b'.fd_event_array_size ≡ b.fd_event_array_size))
          (event_del os w b fd event_both)
  unfolding event_del
  event_del-heap w b fd lt =
      let same = λ (r : Ret) (b' : EventBase) (w' : World).
        Safe-done
          (λ (r, b', w').
            (b'.heap ≡ b.heap)
            × (b'.time_cache ≡ b.time_cache)
            × (b'.fd_event_array_size ≡ b.fd_event_array_size))
          (r, b', w') in
      Safe-if _ (ltb b.fd_event_array_size fd) _ _ (λ h. same _ _ _ (refl, refl, refl))
        λ h1.
          Safe-if _ (fd == b.fd_event_array_size) _ _ (λ h. absurd (ground (arith, h)))
            λ h2.
              Safe-if _ (is_none (b.fd_events fd).mask) _ _ (λ h. same _ _ _ (refl, refl, refl))
                λ h3.
                  Safe-if _ (not (overlaps (b.fd_events fd).mask event_both)) _ _
                    (λ h. same _ _ _ (refl, refl, refl)) (λ h. same _ _ _ (refl, refl, refl))

  -- A timer that is in no heap is not unregistered again.
  unregister_outside :
      (b : EventBase) (p : ℕ)
      → (b.heap.nodes p).heap_index ≡ none
      → unregister_timer_out_event b p ≡ done (ret_fail, b)
  unfolding unregister_timer_out_event
  unregister_outside b p out = elim (Bool-cases (p == null)) [
    | inl hit ↦ rw hit
    | inr miss ↦ rw (miss, erase-outside b.heap p out)
  ]

  release_conn-Called :
      (w : World) (s : Server) (p : ℕ) (c : ConnFd)
      → (s.base.heap.nodes c.timeout_event).heap_index ≡ none
      → c.fd < s.base.fd_event_array_size
      → Safe (λ (s', w'). Called p s s') (release_conn os w s p c)
  unfolding release_conn fd_file_event_init
  release_conn-Called w s p c out lt =
      let inside : ltb c.fd s.base.fd_event_array_size ≡ true = ground arith in
      rw (unregister_outside s.base c.timeout_event out, inside)
        (Safe-done _ _ (record {
          heap = refl;
          now = refl;
          size = refl;
          old = λ q d e. ground (arith, e);
          others = λ g ne. ground arith;
        }))

  unless_failed :
      (P : Server × World → Type 0) (r : Ret) (x : Run (Server × World))
      → Safe P x
      → Safe P (elim r [ ret_fail ↦ exits | ret_succ ↦ x ])
  unless_failed P ret_fail x p = Safe-exits P
  unless_failed P ret_succ x p = p

  destroy_conn-Called :
      (w : World) (s : Server) (p : ℕ) (c : ConnFd)
      → s.conns p ≡ some c
      → (s.base.heap.nodes c.timeout_event).heap_index ≡ none
      → c.fd < s.base.fd_event_array_size
      → Safe (λ (s', w'). Called p s s') (destroy_conn os w s p)
  unfolding destroy_conn deref
  destroy_conn-Called w s p c live out lt =
      let b = record s.base { client_count = s.base.client_count +ℤ negsuc 0 } in
      rw (deref, live)
        (Safe-bind _ _ (event_del os w b c.fd event_both) _ (event_del-heap w b c.fd lt)
          λ (r, b', w') (same, clock, size). unless_failed _ r _ (
            Safe-weaken _ _ _
              (release_conn-Called _ (record s { base = b' }) p c
                (subst (λ h. (h.nodes c.timeout_event).heap_index ≡ none) (sym same) out)
                (omega (arith, size, lt)))
              λ (s', w'') d. record {
                heap = d.heap ∙ same;
                now = d.now ∙ clock;
                size = d.size ∙ size;
                old = d.old;
                others = d.others;
              }))

  untouched : (s : Server) (p : ℕ) → Called p s s
  untouched s p = record {
    heap = refl;
    now = refl;
    size = refl;
    old = λ g c e. e;
    others = λ g ne. refl;
  }

  callback-Called :
      (callback : Option TimeoutCallback) (w : World) (s : Server) (arg : ℕ)
      → (arg ≢ null
          → (c : ConnFd) × (s.conns arg ≡ some c)
            × ((s.base.heap.nodes c.timeout_event).heap_index ≡ none)
            × (c.fd < s.base.fd_event_array_size))
      → Safe {A = Server × World}
          (λ (s', w'). Called arg s s')
          (elim callback [
            | none ↦ done (s, w)
            | some connection_timeout ↦ connection_timeout_callback os w s arg
          ])
  unfolding connection_timeout_callback
  callback-Called none w s arg ready = Safe-done _ _ (untouched s arg)
  callback-Called (some connection_timeout) w s arg ready =
      Safe-if _ (arg == null) _ _ (λ h. Safe-done _ _ (untouched s arg))
        λ h.
          let (c, live, out, lt) = ready (ground (arith, h)) in
          destroy_conn-Called w s arg c live out lt

-- The base after the first timer was taken out.
abbrev pub popped : Server → MinHeap → Server
popped s h = record s { base = record s.base { heap = h } }

-- What the callback of the popped timer leaves keeps what the next turn needs.
next-TimersMatch :
    (s s2 : Server) (p a : ℕ) (h : MinHeap)
    → TimersMatch s
    → Removed s.base.heap p h
    → Called a (popped s h) s2
    → TimersMatch s2
next-TimersMatch s s2 p a h match removed d q arg c held e live =
    match q arg c ((removed.members q).0 (subst (λ g. Holds g q) d.heap held)).0
      (sym (ap (λ t. t.callback_arg) (removed.nodes q))
        ∙ sym (ap (λ g. (g.nodes q).callback_arg) d.heap)
        ∙ e)
      (d.old arg c live)

-- The connection of another timer is another one, so that it is still there.
next-TimersLive :
    (s s2 : Server) (p : ℕ) (h : MinHeap)
    → TimersMatch s
    → TimersLive s
    → Holds s.base.heap p
    → Removed s.base.heap p h
    → Called (s.base.heap.nodes p).callback_arg (popped s h) s2
    → TimersLive s2
next-TimersLive s s2 p h match alive there removed d q held given =
    let a = (s.base.heap.nodes q).callback_arg in
    let same : (s2.base.heap.nodes q).callback_arg ≡ a =
      ap (λ g. (g.nodes q).callback_arg) d.heap ∙ ap (λ t. t.callback_arg) (removed.nodes q) in
    let (before, differs) = (removed.members q).0 (subst (λ g. Holds g q) d.heap held) in
    let (c, live, lt) = alive q before (λ z. given (same ∙ z)) in
    let apart : a ≢ (s.base.heap.nodes p).callback_arg =
      λ z. differs (sym (match q a c before refl live) ∙ match p a c there (sym z) live) in
    (c, ap s2.conns same ∙ d.others a apart ∙ live, omega (arith, d.size, lt))

next-Waiting :
    (s s2 s3 : Server) (p a : ℕ) (h : MinHeap)
    → Removed s.base.heap p h
    → Called a (popped s h) s2
    → Waiting s2 s3
    → Waiting s s3
next-Waiting s s2 s3 p a h removed d x = record {
  valid = x.valid;
  later = λ q held. subst (λ t. usecs t < rank s3.base.heap q) d.now (x.later q held);
  old = λ q held. ((removed.members q).0 (subst (λ g. Holds g q) d.heap (x.old q held))).0;
  now = x.now ∙ d.now;
}

module _ (os : Os) (client : os.World → Client)
    (epoll_wait : os.World → ℤ → Option (List EpollEvent) × os.World) (fuel : ℕ) where
  -- On a valid heap whose timers belong to the connections that their callbacks get, where each of
  -- these connections is there and its descriptor is inside the table, the loop of
  -- ReactorProcessTimeoutEvent ends in as many turns as there are timers and one more, and without
  -- a fault. Unless a callback ends the process by exit(), every timer that is left is due later
  -- than the cached time, and none is new.
  pub process_timeout_event-Waiting :
      (k : ℕ) (w : os.World) (s : Server)
      → IsValid s.base.heap
      → IsNormal s.base.time_cache
      → TimersMatch s
      → TimersLive s
      → s.base.heap.node_used < k
      → Safe (λ (s', w'). Waiting s s') (process_timeout_event os client epoll_wait fuel k w s)
  unfolding process_timeout_event
  process_timeout_event-Waiting zero w s v n match alive enough = absurd (omega arith)
  process_timeout_event-Waiting (suc k) w s v n match alive enough =
      let h = s.base.heap in
      let top = h.slots 0 in
      elim (Bool-cases (h.node_used == 0)) [
        | inl bare ↦
            let empty : h.node_used ≡ 0 = ground arith in
            rw (get_top_element-bare h empty) (
              Safe-done _ _ (record {
                valid = v;
                later = λ q (i, lt, e). absurd (omega arith);
                old = λ q held. held;
                now = refl;
              }))
        | inr busy ↦
            let pos : 0 < h.node_used = ground arith in
            let solid : (top == null) ≡ false = ground (arith, v.nonnull 0) in
            let cmp = timercmp_gt-ltb (h.nodes top).timeout s.base.time_cache (v.normal top) n in
            rw (get_top_element-first h v pos, solid, cmp)
              (elim (Bool-cases (ltb (usecs s.base.time_cache) (rank h top))) [
                | inl later ↦ rw later (
                    Safe-done _ _ (record {
                      valid = v;
                      later = λ q held. ground (arith, top_least h q v held);
                      old = λ q held. held;
                      now = refl;
                    }))
                | inr due ↦
                    let ((p, g), e, (held, least, taken)) =
                      Returns-inv _ (pop h) (pop-Removed h v pos) in
                    let first : p ≡ top =
                      subst (λ r. Returns (λ (p, h'). p ≡ top) r) e (pop-first h v pos) in
                    let removed : Removed h top g = subst (λ x. Removed h x g) first taken in
                    let there : Holds h top = (0, pos, refl) in
                    let node = h.nodes top in
                    rw (due, e)
                      (Safe-bind _ _
                        (elim node.callback [
                          | none ↦ done (popped s g, w)
                          | some connection_timeout ↦
                              connection_timeout_callback os w (popped s g) node.callback_arg
                        ])
                        _
                        (callback-Called os node.callback w (popped s g) node.callback_arg λ given.
                          let (c, live, lt) = alive top there given in
                          (
                            c,
                            live,
                            subst (λ x. (g.nodes x).heap_index ≡ none)
                                (sym (match top node.callback_arg c there refl live)) removed.reset,
                            lt,
                          ))
                        λ (s2, w2) d.
                          Safe-weaken _ _ _
                            (process_timeout_event-Waiting k w2 s2
                              (subst IsValid (sym d.heap) removed.valid)
                              (subst IsNormal (sym d.now) n)
                              (next-TimersMatch s s2 top node.callback_arg g match removed d)
                              (next-TimersLive s s2 top g match alive there removed d)
                              (omega (arith, removed.shrunk, ap (λ x. x.node_used) d.heap)))
                            λ (s3, w3) x. next-Waiting s s2 s3 top node.callback_arg g removed d x)
              ])
      ]
