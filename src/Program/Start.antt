-- ===== src/Program/Start.antt =====
-- The base that EventBaseCreate gives has the stop sign 0.
use tcpframe.Prelude.{
  ℕ, ◌≡◌, refl, Bool, true, false, not, Option, Option-cases, inl, inr, none, some, ◌==◌,
  if◌then◌else◌, done, ◌>>=◌, ret_succ, ret_fail,
}
use tcpframe.Prelude.Unless.{Unless, Unless-bind, Unless-done, Unless-ret}
use tcpframe.MinHeap.{null, TimeoutEvent}
use tcpframe.Os.{Os, event_readable}
use tcpframe.Reactor.{
  EventBase, FdEvent, epoll_lt_type, epoll_size, process_accept, create_new_event_base, event_add,
  event_base_create,
}
use tcpframe.Server.Sign.{event_add-sign}

-- The base, if there is one, has the stop sign 0.
abbrev pub Going : Option EventBase → Type 0
Going none = Unit
Going (some b) = b.stop_sign ≡ 0

module _ (os : Os) where
  Going-if :
      (b : Bool) (x y : Option EventBase × os.World)
      → Going x.0
      → Going y.0
      → Going (if b then x else y).0
  Going-if true x y p q = p
  Going-if false x y p q = q

  create_new_event_base-Going :
      (w : os.World) (size : ℕ) (cells : ℕ → FdEvent) (nodes : ℕ → TimeoutEvent)
      → Going (create_new_event_base os w size cells nodes).0
  unfolding create_new_event_base
  create_new_event_base-Going w size cells nodes =
      let (base_ok, w1) = os.malloc w 1 in
      let (epfd, w2) = os.epoll_create w1 in
      let (events_ok, w3) = os.malloc w2 epoll_size in
      let (cells_ok, w4) = os.malloc w3 size in
      let (cache_ok, w5) = os.malloc w4 1 in
      let (now, w6) = os.gettimeofday w5 in
      let (heap_ok, w7) = os.malloc w6 1 in
      Going-if (size == 0) _ _ tt (
        Going-if (not base_ok) _ _ tt (elim (Option-cases epfd) [
          | inl refused ↦ rw refused tt
          | inr (fd, given) ↦ rw given (
              Going-if (not events_ok) _ _ tt (
                Going-if (not cells_ok) _ _ tt
                  (Going-if (not cache_ok) _ _ tt (Going-if (not heap_ok) _ _ tt refl))))
        ]))

  made-Going :
      (o : Option EventBase) (w : os.World) (fd : ℕ)
      → Going o
      → Unless {A = Option EventBase × os.World}
          (λ (o', w'). Going o')
          (elim o [
            | none ↦ done (none, w)
            | some b ↦
                event_add os w
                  (record b { listen_fd = fd; ep_type = epoll_lt_type })
                  fd
                  event_readable
                  process_accept
                  null
                >>= λ (r, b', w''). elim r [
                  | ret_succ ↦ done (some b', w'')
                  | ret_fail ↦ done (none, w'')
                ]
          ])
  made-Going none w fd going = Unless-done _ _ tt
  made-Going (some b) w fd going =
      let b1 = record b { listen_fd = fd; ep_type = epoll_lt_type } in
      Unless-bind _ _ (event_add os w b1 fd event_readable process_accept null) _
        (event_add-sign 0 os w b1 fd event_readable process_accept null going)
        λ (r, b', w'') going'.
          Unless-ret _ r (done (none, w'')) _ (Unless-done _ _ tt) (Unless-done _ _ going')

  pub event_base_create-Going :
      (w : os.World) (fd size : ℕ) (cells : ℕ → FdEvent) (nodes : ℕ → TimeoutEvent)
      → Unless (λ (o, w'). Going o) (event_base_create os w fd size cells nodes)
  unfolding event_base_create
  event_base_create-Going w fd size cells nodes =
      let (created, w') = create_new_event_base os w size cells nodes in
      made-Going created w' fd (create_new_event_base-Going w size cells nodes)
