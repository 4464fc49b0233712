-- ===== src/Master/Daemon.antt =====
-- InitDaemonProcess of src/main.c: the limits, the two forks, and the signals that are ignored.
--
-- Signals and resources are the numbers that they have on Linux. The messages that go to the log
-- are left out.
use tcpframe.Prelude.{
  ℕ, Bool, List, [], ◌∷◌, Option, none, some, ◌==◌, if◌then◌else◌, Run, done, exits, ◌>>=◌, ◌≡◌,
  ◌≤◌, true,
}
use tcpframe.Master.{Processes, fork_failed, in_child, in_parent}
use tcpframe.Master.Supervision.{Children}

-- RLIMIT_CORE and RLIMIT_NOFILE
abbrev pub rlimit_core : ℕ
rlimit_core = 4

abbrev pub rlimit_nofile : ℕ
rlimit_nofile = 7

abbrev pub sighup : ℕ
sighup = 1

abbrev pub sigpipe : ℕ
sigpipe = 13

abbrev pub sigterm : ℕ
sigterm = 15

abbrev pub sigchld : ℕ
sigchld = 17

-- SIGINT, SIGHUP, SIGQUIT, SIGPIPE, SIGTTOU, SIGTTIN, SIGCHLD and SIGTERM, in the code's order
abbrev pub daemon_signals : List ℕ
daemon_signals = 2 ∷ sighup ∷ 3 ∷ sigpipe ∷ 22 ∷ 21 ∷ sigchld ∷ sigterm ∷ []

abbrev pub system_file_max : ℕ
system_file_max = 1000000

pub record Rlimit : Type 0 where
  pub soft : ℕ
  pub hard : ℕ

abbrev pub both : ℕ → Rlimit
both n = record { soft = n; hard = n }

pub data Handler : Type 0 where
  sig_dfl sig_ign parent_sig_handler child_sig_handler : Handler

pub record Unix : Type 1 where
  pub processes : Processes
  pub rlim_infinity : ℕ
  pub getrlimit : processes.World → ℕ → Option Rlimit
  pub setrlimit : processes.World → ℕ → Rlimit → Bool × processes.World
  pub signal : processes.World → ℕ → Handler → processes.World
  pub sigaction : processes.World → ℕ → Handler → processes.World
  pub setsid : processes.World → processes.World
  pub setpgrp : processes.World → processes.World
  pub umask : processes.World → ℕ → processes.World
  -- kill(0, ...): to every process of the group
  pub kill_group : processes.World → ℕ → processes.World

module _ (unix : Unix) where
  open unix use {
    processes, rlim_infinity, getrlimit, setrlimit, signal, sigaction, setsid, setpgrp, umask,
  }
  open processes use {World, fork}

  -- Both values of a limit are set to `n`; where that fails, to the hard limit that was there.
  unfoldable pub raise_limit : World → ℕ → ℕ → World
  raise_limit w r n = elim (getrlimit w r) [
    | none ↦ w
    | some old ↦
        let (set, w1) = setrlimit w r (both n) in
        if set then w1 else (setrlimit w1 r (both old.hard)).1
  ]

  unfoldable pub ignore_signals : List ℕ → World → World
  ignore_signals [] w = w
  ignore_signals (s ∷ ss) w = ignore_signals ss (signal w s sig_ign)

  -- `if ((pid = fork()) != 0) exit(0)`
  unfoldable pub go_on_as_child : World → Run World
  go_on_as_child w =
      let (forked, w') = fork w in
      elim forked [ fork_failed ↦ exits | in_child ↦ done w' | in_parent pid ↦ exits ]

  -- InitDaemonProcess
  unfoldable pub init_daemon_process : World → Run World
  init_daemon_process w = do
    let w1 = raise_limit (raise_limit w rlimit_nofile system_file_max) rlimit_core rlim_infinity
    w2 ← go_on_as_child (signal w1 sigpipe sig_ign)
    w3 ← go_on_as_child (sigaction (ignore_signals daemon_signals (setsid w2)) sighup sig_ign)
    done (setpgrp (umask w3 0))

-- The documented behaviour of the calls: what each of them changes, and what it leaves.
pub record UnixLaws (unix : Unix) : Type 0 where
  pub counts : Children unix.processes
  pub limit : unix.processes.World → ℕ → Rlimit
  pub handler : unix.processes.World → ℕ → Handler
  -- The resources that the system knows; getrlimit fails for no other reason.
  pub knows : ℕ → Bool
  pub getrlimit_gives :
      (w : unix.processes.World) (r : ℕ)
      → unix.getrlimit w r ≡ (if knows r then some (limit w r) else none)
  pub setrlimit_sets :
      (w : unix.processes.World) (r : ℕ) (l : Rlimit) (r' : ℕ)
      → limit (unix.setrlimit w r l).1 r'
        ≡ (if (unix.setrlimit w r l).0 then (if r == r' then l else limit w r') else limit w r')
  -- A process may always set both of its limits to its hard limit, or lower.
  pub setrlimit_allows :
      (w : unix.processes.World) (r : ℕ) (l : Rlimit)
      → l.soft ≤ l.hard
      → l.hard ≤ (limit w r).hard
      → (unix.setrlimit w r l).0 ≡ true
  pub setrlimit_leaves :
      (w : unix.processes.World) (r : ℕ) (l : Rlimit)
      → (counts.children (unix.setrlimit w r l).1 ≡ counts.children w)
        × ((s : ℕ) → handler (unix.setrlimit w r l).1 s ≡ handler w s)
  pub signal_sets :
      (w : unix.processes.World) (s : ℕ) (h : Handler) (s' : ℕ)
      → handler (unix.signal w s h) s' ≡ (if s == s' then h else handler w s')
  pub sigaction_sets :
      (w : unix.processes.World) (s : ℕ) (h : Handler) (s' : ℕ)
      → handler (unix.sigaction w s h) s' ≡ (if s == s' then h else handler w s')
  pub signal_leaves :
      (w : unix.processes.World) (s : ℕ) (h : Handler)
      → (counts.children (unix.signal w s h) ≡ counts.children w)
        × ((r : ℕ) → limit (unix.signal w s h) r ≡ limit w r)
  pub sigaction_leaves :
      (w : unix.processes.World) (s : ℕ) (h : Handler)
      → (counts.children (unix.sigaction w s h) ≡ counts.children w)
        × ((r : ℕ) → limit (unix.sigaction w s h) r ≡ limit w r)
  -- A new process has no children, and its parent's limits and handlers.
  pub fork_inherits :
      (w w' : unix.processes.World)
      → unix.processes.fork w ≡ (in_child, w')
      → (counts.children w' ≡ 0)
        × ((r : ℕ) → limit w' r ≡ limit w r)
        × ((s : ℕ) → handler w' s ≡ handler w s)
  pub setsid_leaves :
      (w : unix.processes.World)
      → ((r : ℕ) → limit (unix.setsid w) r ≡ limit w r)
        × ((s : ℕ) → handler (unix.setsid w) s ≡ handler w s)
  pub umask_leaves :
      (w : unix.processes.World) (m : ℕ)
      → (counts.children (unix.umask w m) ≡ counts.children w)
        × ((r : ℕ) → limit (unix.umask w m) r ≡ limit w r)
        × ((s : ℕ) → handler (unix.umask w m) s ≡ handler w s)
  pub setpgrp_leaves :
      (w : unix.processes.World)
      → (counts.children (unix.setpgrp w) ≡ counts.children w)
        × ((r : ℕ) → limit (unix.setpgrp w) r ≡ limit w r)
        × ((s : ℕ) → handler (unix.setpgrp w) s ≡ handler w s)
