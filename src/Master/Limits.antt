-- ===== src/Master/Limits.antt =====
-- What InitDaemonProcess leaves: a process without children, with its limits raised, that ignores the
-- signals of a terminal.
use tcpframe.Prelude.{
  ℕ, ◌≡◌, refl, sym, ap, subst, ◌∙◌, ◌≢◌, ◌⊎◌, inl, inr, Bool, true, false, Bool-cases, ◌||◌, List,
  [], ◌∷◌, Option-cases, none, some, ◌==◌, if◌then◌else◌, arith, done, exits,
}
use tcpframe.Prelude.Safe.{Safe, Safe-done, Safe-exits, Safe-bind}
use tcpframe.Master.{ForkResult, fork_failed, in_child, in_parent}
use tcpframe.Master.Daemon.{
  Unix, UnixLaws, Rlimit, both, Handler, sig_ign, raise_limit, ignore_signals, go_on_as_child,
  init_daemon_process, rlimit_core, rlimit_nofile, system_file_max, daemon_signals, sighup, sigpipe,
}

abbrev pub one_of : List ℕ → ℕ → Bool
one_of [] s = false
one_of (x ∷ xs) s = (x == s) || one_of xs s

module _ (unix : Unix) (laws : UnixLaws unix) where
  open unix use {processes, rlim_infinity, getrlimit, setrlimit}
  open processes use {World}
  open laws use {counts, limit, handler}
  open counts use {children}

  -- Both values of the limit are `n`, or the hard limit that was there, or the system does not know
  -- the resource, and nothing has changed.
  abbrev pub Raised : ℕ → ℕ → Rlimit → Rlimit → Type 0
  Raised r n old l =
      ((laws.knows r ≡ true) × ((l ≡ both n) ⊎ (l ≡ both old.hard)))
      ⊎ ((laws.knows r ≡ false) × (l ≡ old))

  set_twice :
      (w : World) (r n : ℕ) (old : Rlimit)
      → old ≡ limit w r
      → (limit
            (if (setrlimit w r (both n)).0
              then (setrlimit w r (both n)).1
              else (setrlimit (setrlimit w r (both n)).1 r (both old.hard)).1)
            r
          ≡ both n)
        ⊎ (limit
              (if (setrlimit w r (both n)).0
                then (setrlimit w r (both n)).1
                else (setrlimit (setrlimit w r (both n)).1 r (both old.hard)).1)
              r
            ≡ both (limit w r).hard)
  set_twice w r n old e =
      let w1 = (setrlimit w r (both n)).1 in
      let self : (r == r) ≡ true = ground arith in
      elim (Bool-cases (setrlimit w r (both n)).0) [
        | inl ok ↦ rw ok (inl (laws.setrlimit_sets w r (both n) r ∙ rw (ok, self) refl))
        | inr failed ↦
            let same : limit w1 r ≡ limit w r =
              laws.setrlimit_sets w r (both n) r ∙ rw failed refl in
            let hard : old.hard ≡ (limit w r).hard = ap (λ l. l.hard) e in
            let allowed =
              laws.setrlimit_allows w1 r (both old.hard) (omega arith)
                (omega (arith, hard, ap (λ l. l.hard) same)) in
            rw failed (
              inr (
                laws.setrlimit_sets w1 r (both old.hard) r
                ∙ rw (allowed, self) refl
                ∙ ap both hard))
      ]

  raise_limit-Raised :
      (w : World) (r n : ℕ) → Raised r n (limit w r) (limit (raise_limit unix w r n) r)
  unfolding raise_limit
  raise_limit-Raised w r n = elim (Bool-cases (laws.knows r)) [
    | inl known ↦
        let given : getrlimit w r ≡ some (limit w r) = laws.getrlimit_gives w r ∙ rw known refl in
        rw (raise_limit, given) (inl (known, set_twice w r n (limit w r) refl))
    | inr unknown ↦
        let given : getrlimit w r ≡ none = laws.getrlimit_gives w r ∙ rw unknown refl in
        rw (raise_limit, given) (inr (unknown, refl))
  ]

  -- What a call leaves: the handlers and the children, and the limits but one.
  abbrev Others : World → ℕ → World → Type 0
  Others w r w' =
      (children w' ≡ children w)
      × ((s : ℕ) → handler w' s ≡ handler w s)
      × ((r' : ℕ) → r ≢ r' → limit w' r' ≡ limit w r')

  set-Others : (w : World) (r : ℕ) (l : Rlimit) → Others w r (setrlimit w r l).1
  set-Others w r l =
      let (count, handlers) = laws.setrlimit_leaves w r l in
      (
        count,
        handlers,
        λ r' ne.
            let miss : (r == r') ≡ false = ground arith in
            laws.setrlimit_sets w r l r' ∙ rw miss (if_same (setrlimit w r l).0 (limit w r')),
      )
    where
      if_same : (b : Bool) (l : Rlimit) → (if b then l else l) ≡ l
      if_same true l = refl
      if_same false l = refl

  raise_limit-Others : (w : World) (r n : ℕ) → Others w r (raise_limit unix w r n)
  unfolding raise_limit
  raise_limit-Others w r n = elim (Option-cases (getrlimit w r)) [
    | inl nothing ↦ rw (raise_limit, nothing) (refl, λ s. refl, λ r' ne. refl)
    | inr (old, given) ↦
        let (count, handlers, limits) = set-Others w r (both n) in
        elim (Bool-cases (setrlimit w r (both n)).0) [
          | inl ok ↦ rw (raise_limit, given, ok) (count, handlers, limits)
          | inr failed ↦
              let (count2, handlers2, limits2) =
                set-Others (setrlimit w r (both n)).1 r (both old.hard) in
              rw (raise_limit, given, failed)
                (
                  count2 ∙ count,
                  λ s. handlers2 s ∙ handlers s,
                  λ r' ne. limits2 r' ne ∙ limits r' ne,
                )
        ]
  ]

  -- After the signals of a list are ignored, they are, and the others are as before.
  ignore_signals_lem :
      (ss : List ℕ) (w : World)
      → (children (ignore_signals unix ss w) ≡ children w)
        × ((r : ℕ) → limit (ignore_signals unix ss w) r ≡ limit w r)
        × ((s : ℕ)
            → handler (ignore_signals unix ss w) s ≡ (if one_of ss s then sig_ign else handler w s))
  unfolding ignore_signals
  ignore_signals_lem [] w = (refl, λ r. refl, λ s. refl)
  ignore_signals_lem (x ∷ ss) w =
      let (count, limits) = laws.signal_leaves w x sig_ign in
      let (count2, limits2, handlers2) = ignore_signals_lem ss (unix.signal w x sig_ign) in
      (
        count2 ∙ count,
        λ r. limits2 r ∙ limits r,
        λ s.
            handlers2 s ∙ rw (laws.signal_sets w x sig_ign s) (both_tests (x == s) (one_of ss s) _),
      )
    where
      both_tests :
          (a b : Bool) (h : Handler)
          → (if b then sig_ign else (if a then sig_ign else h)) ≡ (if a || b then sig_ign else h)
      both_tests true true h = refl
      both_tests true false h = refl
      both_tests false true h = refl
      both_tests false false h = refl

  -- A call that goes on in the new process, which inherits limits and handlers.
  abbrev Inherits : World → World → Type 0
  Inherits w w' =
      (children w' ≡ 0)
      × ((r : ℕ) → limit w' r ≡ limit w r)
      × ((s : ℕ) → handler w' s ≡ handler w s)

  go_on_as_child-Inherits : (w : World) → Safe (Inherits w) (go_on_as_child unix w)
  unfolding go_on_as_child
  go_on_as_child-Inherits w = forked (processes.fork w).0 (processes.fork w).1 refl
    where
      forked :
          (r : ForkResult) (w' : World)
          → processes.fork w ≡ (r, w')
          → Safe
              (Inherits w)
              (elim r [ fork_failed ↦ exits | in_child ↦ done w' | in_parent pid ↦ exits ])
      forked fork_failed w' e = Safe-exits _
      forked in_child w' e = Safe-done _ _ (laws.fork_inherits w w' e)
      forked (in_parent pid) w' e = Safe-exits _

  -- The process that goes on after InitDaemonProcess was called in `w`.
  pub record IsDaemon (w w' : World) : Type 0 where
    pub alone : children w' ≡ 0
    pub files :
        Raised rlimit_nofile system_file_max (limit w rlimit_nofile) (limit w' rlimit_nofile)
    pub core : Raised rlimit_core rlim_infinity (limit w rlimit_core) (limit w' rlimit_core)
    pub signals :
        (s : ℕ) → handler w' s ≡ (if one_of daemon_signals s then sig_ign else handler w s)

  all_ignored :
      (s : ℕ) (h : Handler)
      → (if sighup == s
          then sig_ign
          else (if one_of daemon_signals s then sig_ign else (if sigpipe == s then sig_ign else h)))
        ≡ (if one_of daemon_signals s then sig_ign else h)
  all_ignored s h = ground arith

  -- InitDaemonProcess ends the process by exit(), or returns in a process without children: both
  -- limits of each of the two resources that the system knows are what was asked for, or the hard
  -- limit that was there, those of one that it does not know are as before, and the eight signals
  -- are ignored, while no other handler changed.
  pub init_daemon_process-IsDaemon :
      (w : World) → Safe (λ w'. IsDaemon w w') (init_daemon_process unix w)
  unfolding init_daemon_process
  init_daemon_process-IsDaemon w =
      let n1 = raise_limit unix w rlimit_nofile system_file_max in
      let n2 = raise_limit unix n1 rlimit_core rlim_infinity in
      let (c1, h1, l1) = raise_limit-Others w rlimit_nofile system_file_max in
      let (c2, h2, l2) = raise_limit-Others n1 rlimit_core rlim_infinity in
      let p = unix.signal n2 sigpipe sig_ign in
      let (cp, lp) = laws.signal_leaves n2 sigpipe sig_ign in
      Safe-bind _ _ (go_on_as_child unix p) _ (go_on_as_child-Inherits p) λ w2 (a2, lim2, han2).
        let d = unix.setsid w2 in
        let (ld, hd) = laws.setsid_leaves w2 in
        let i = ignore_signals unix daemon_signals d in
        let (ci, li, hi) = ignore_signals_lem daemon_signals d in
        let g = unix.sigaction i sighup sig_ign in
        let (cg, lg) = laws.sigaction_leaves i sighup sig_ign in
        Safe-bind _ _ (go_on_as_child unix g) _ (go_on_as_child-Inherits g) λ w3 (a3, lim3, han3).
          let (cu, lu, hu) = laws.umask_leaves w3 0 in
          let (cs, ls, hs) = laws.setpgrp_leaves (unix.umask w3 0) in
          let limits : (r : ℕ) → limit (unix.setpgrp (unix.umask w3 0)) r ≡ limit n2 r =
            λ r. ls r ∙ lu r ∙ lim3 r ∙ lg r ∙ li r ∙ ld r ∙ lim2 r ∙ lp r in
          Safe-done _ _ (record {
            alone = cs ∙ cu ∙ a3;
            files =
                subst (Raised rlimit_nofile system_file_max (limit w rlimit_nofile))
                  (sym (limits rlimit_nofile ∙ l2 rlimit_nofile (omega arith)))
                  (raise_limit-Raised w rlimit_nofile system_file_max);
            core =
                subst
                  (λ old.
                    Raised rlimit_core rlim_infinity old
                      (limit (unix.setpgrp (unix.umask w3 0)) rlimit_core))
                  (l1 rlimit_core (omega arith))
                  (subst (Raised rlimit_core rlim_infinity (limit n1 rlimit_core))
                    (sym (limits rlimit_core)) (raise_limit-Raised n1 rlimit_core rlim_infinity));
            signals = λ s.
                hs s
                ∙ hu s
                ∙ han3 s
                ∙ laws.sigaction_sets i sighup sig_ign s
                ∙ ap (λ x. if sighup == s then sig_ign else x)
                    (hi s
                      ∙ ap (λ x. if one_of daemon_signals s then sig_ign else x)
                          (hd s
                            ∙ han2 s
                            ∙ laws.signal_sets n2 sigpipe sig_ign s
                            ∙ ap (λ x. if sigpipe == s then sig_ign else x) (h2 s ∙ h1 s)))
                ∙ all_ignored s (handler w s);
          })
