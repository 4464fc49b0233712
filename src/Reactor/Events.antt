-- ===== src/Reactor/Events.antt =====
-- EventAdd and EventDel against the set that epoll watches.
use tcpframe.Prelude.{
  ℕ, ◌<◌, ◌≡◌, sym, ap, ◌∙◌, ◌≢◌, inl, inr, refl, ◌||◌, true, false, Bool-cases, Option, none, some,
  ltb, ◌==◌, if◌then◌else◌, arith, done, ret_succ, ret_fail,
}
use tcpframe.Os.{
  Os, OsLaws, Mask, CtlOp, ctl_add, ctl_mod, overlaps, union, without, is_none, after_ctl,
}
use tcpframe.Reactor.{
  EventBase, FdEvent, with_event, register, add_op, del_op, EventCallback, event_add, event_del,
}

-- The set that belongs to a mask of the table.
abbrev pub watched : Mask → Option Mask
watched m = if is_none m then none else some m

add_watched :
    (m added : Mask)
    → is_none added ≡ false
    → after_ctl (add_op m) (union m added) ≡ watched (union m added)
add_watched m added h = ground arith

del_watched : (rest : Mask) → after_ctl (del_op rest) rest ≡ watched rest
del_watched rest = ground arith

overlaps_some : (m mask : Mask) → overlaps m mask ≡ true → is_none m ≡ false
overlaps_some m mask h = ground arith

overlaps-union : (m added : Mask) → is_none added ≡ false → overlaps (union m added) added ≡ true
overlaps-union m added h = ground arith

union_differs :
    (m added : Mask)
    → is_none added ≡ false
    → overlaps m added ≡ false
    → watched m ≢ watched (union m added)
union_differs m added h fresh e = ground arith

module _ (os : Os) (laws : OsLaws os) where
  -- Epoll watches exactly what the masks of the table say.
  abbrev pub Mirrors : EventBase → os.World → Type 0
  Mirrors b w =
      (fd : ℕ) → fd < b.fd_event_array_size → laws.interest w fd ≡ watched (b.fd_events fd).mask

  add_watches :
      (w w' : os.World) (b : EventBase) (fd : ℕ) (ev : FdEvent) (op : CtlOp) (m : Mask)
      → Mirrors b w
      → os.epoll_ctl w op fd m ≡ (true, w')
      → after_ctl op m ≡ watched ev.mask
      → Mirrors (with_event b fd ev) w'
  add_watches w w' b fd ev op m mir e same g lt = elim (Bool-cases (fd == g)) [
    | inl hit ↦ rw (hit, laws.ctl_sets w op fd m w' e g, hit) same
    | inr miss ↦ rw (miss, laws.ctl_sets w op fd m w' e g, miss) (mir g lt)
  ]

  module _ (w : os.World) (b : EventBase) (fd : ℕ) (mask : Mask) (mir : Mirrors b w)
      (lt : fd < b.fd_event_array_size) where
    abbrev ev : FdEvent
    ev = b.fd_events fd

    in_table : ltb b.fd_event_array_size fd ≡ false
    in_table = ground arith

    not_past : (fd == b.fd_event_array_size) ≡ false
    not_past = ground arith

    pub event_add-registers :
        (callback : EventCallback) (arg : ℕ) (w' : os.World)
        → is_none mask ≡ false
        → overlaps ev.mask mask ≡ false
        → os.epoll_ctl w (add_op ev.mask) fd (union ev.mask mask) ≡ (true, w')
        → (event_add os w b fd mask callback arg
            ≡ done (ret_succ, with_event b fd (register ev mask callback arg), w'))
          × Mirrors (with_event b fd (register ev mask callback arg)) w'
    unfolding event_add
    event_add-registers callback arg w' some_bit fresh e = (
      rw (in_table, not_past, fresh, e),
      add_watches w w' b fd _ (add_op ev.mask) (union ev.mask mask) mir e
          (add_watched ev.mask mask some_bit),
    )

    -- EventAdd of bits that are not yet set, where epoll_ctl succeeds, asked to add a descriptor of
    -- which nothing was watched and to modify any other, with the old bits and the new ones together:
    -- it succeeds, and epoll watches what the table says. The cell has the old bits and the new
    -- ones; the callback is the one for writing if that bit was asked for, and the one for reading
    -- if that bit was, and else they are as before; the argument is the new one. No other cell and
    -- nothing else of the base changes.
    pub event_add-Mirrors :
        (callback : EventCallback) (arg : ℕ) (w' : os.World)
        → is_none mask ≡ false
        → overlaps ev.mask mask ≡ false
        → os.epoll_ctl w
            (if ev.mask.writable || ev.mask.readable then ctl_mod else ctl_add)
            fd
            (record {
              writable = ev.mask.writable || mask.writable;
              readable = ev.mask.readable || mask.readable;
            })
          ≡ (true, w')
        → (b' : EventBase) × (event_add os w b fd mask callback arg ≡ done (ret_succ, b', w'))
          × Mirrors b' w'
          × ((b'.fd_events fd).mask.writable ≡ (ev.mask.writable || mask.writable))
          × ((b'.fd_events fd).mask.readable ≡ (ev.mask.readable || mask.readable))
          × ((b'.fd_events fd).callback_write
              ≡ (if mask.writable then some callback else ev.callback_write))
          × ((b'.fd_events fd).callback_read
              ≡ (if mask.readable then some callback else ev.callback_read))
          × ((b'.fd_events fd).arg ≡ arg)
          × ((g : ℕ) → g ≢ fd → b'.fd_events g ≡ b.fd_events g)
          × (b' ≡ record b { fd_events = b'.fd_events })
    event_add-Mirrors callback arg w' some_bit fresh e =
        let op : (if ev.mask.writable || ev.mask.readable then ctl_mod else ctl_add)
            ≡ add_op ev.mask =
          ground arith in
        let (added, mirrors) =
          event_add-registers callback arg w' some_bit fresh
            (ap (λ o. os.epoll_ctl w o fd (union ev.mask mask)) (sym op) ∙ e) in
        let self : (fd == fd) ≡ true = ground arith in
        (
          with_event b fd (register ev mask callback arg),
          added,
          mirrors,
          rw self refl,
          rw self refl,
          rw self refl,
          rw self refl,
          rw self refl,
          λ g ne. let miss : (fd == g) ≡ false = ground arith in rw miss refl,
          refl,
        )

    -- EventDel of bits of which one is set, where epoll_ctl succeeds: the bits are gone from the
    -- table, and epoll watches the rest, or has deleted the descriptor.
    pub event_del-Mirrors :
        (w' : os.World)
        → overlaps ev.mask mask ≡ true
        → os.epoll_ctl w (del_op (without ev.mask mask)) fd (without ev.mask mask) ≡ (true, w')
        → (event_del os w b fd mask
            ≡ done (ret_succ, with_event b fd (record ev { mask = without ev.mask mask }), w'))
          × Mirrors (with_event b fd (record ev { mask = without ev.mask mask })) w'
    unfolding event_del
    event_del-Mirrors w' set e = (
      rw (in_table, not_past, overlaps_some ev.mask mask set, set, e),
      add_watches w w' b fd _ (del_op (without ev.mask mask)) (without ev.mask mask) mir e
          (del_watched (without ev.mask mask)),
    )

    -- Where epoll_ctl fails, EventAdd says so, but the table keeps the bits: it no longer says what
    -- epoll watches, and the next EventAdd of the same bits reports success and does nothing.
    pub event_add_failure_sticks :
        (callback : EventCallback) (arg : ℕ) (w' : os.World)
        → is_none mask ≡ false
        → overlaps ev.mask mask ≡ false
        → os.epoll_ctl w (add_op ev.mask) fd (union ev.mask mask) ≡ (false, w')
        → (b' : EventBase) × (event_add os w b fd mask callback arg ≡ done (ret_fail, b', w'))
          × ¬ Mirrors b' w'
          × (event_add os w' b' fd mask callback arg ≡ done (ret_succ, b', w'))
    unfolding event_add
    event_add_failure_sticks callback arg w' some_bit fresh e = (
      with_event b fd (register ev mask callback arg),
      rw (in_table, not_past, fresh, e),
      λ bad. union_differs ev.mask mask some_bit fresh (
          sym (mir fd lt)
          ∙ sym (laws.ctl_leaves w _ fd _ w' e fd)
          ∙ bad fd lt
          ∙ ap (λ x. watched (if x then register ev mask callback arg else ev).mask) self),
      rw (in_table, not_past, self, overlaps-union ev.mask mask some_bit),
    )
      where
        self : (fd == fd) ≡ true
        self = ground arith
