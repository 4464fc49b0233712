-- ===== src/Tests/Daemon.antt =====
-- The program on a small system: its processes have limits and handlers, and every fork() goes on in
-- the child.
use tcpframe.Prelude.{
  ℕ, zero, suc, ◌≤◌, ◌≡◌, refl, sym, ap, Bool, true, false, ◌&&◌, List, [], ◌∷◌, Option, none, some,
  leb, ◌==◌, if◌then◌else◌, update, arith,
}
use tcpframe.Prelude.Int.{pos}
use tcpframe.Prelude.Safe.{Safe}
use tcpframe.Prelude.Unless.{Unless}
use tcpframe.Master.{Processes, ForkResult, in_child, in_parent}
use tcpframe.Master.Daemon.{Unix, UnixLaws, Rlimit, both, Handler, sig_dfl, init_daemon_process}
use tcpframe.Master.Limits.{IsDaemon, init_daemon_process-IsDaemon}
use tcpframe.Program.{Machine, Worlds}
use tcpframe.Tests.World.{small_os}
use tcpframe.Tests.Timers.{quiet, cells}
use tcpframe.Tests.Heap.{three_timers}
use tcpframe.Tests.Processes.{table_fs}

pub record Process : Type 0 where
  pub limits : ℕ → Rlimit
  pub handlers : ℕ → Handler
  pub kids : ℕ

abbrev forking : Processes
forking = record {
  World = Process;
  fork = λ w. (in_child, record w { kids = 0 });
  wait = λ w. elim w.kids [ zero ↦ (none, w) | suc n ↦ (some 7, record w { kids = n }) ];
  atoi = λ text. pos 8080;
}

abbrev allowed : Process → ℕ → Rlimit → Bool
allowed w r l = leb l.soft l.hard && leb l.hard (w.limits r).hard

abbrev small_unix : Unix
small_unix = record {
  processes = forking;
  rlim_infinity = 18446744073709551615;
  getrlimit = λ w r. some (w.limits r);
  setrlimit = λ w r l. (
    allowed w r l,
    record w { limits = if allowed w r l then update w.limits r l else w.limits },
  );
  signal = λ w s h. record w { handlers = update w.handlers s h };
  sigaction = λ w s h. record w { handlers = update w.handlers s h };
  setsid = λ w. w;
  setpgrp = λ w. w;
  umask = λ w mask. w;
  kill_group = λ w s. w;
}

collects :
    (w : Process) (n pid : ℕ) (w' : Process)
    → ◌≡◌ {A = Option ℕ × Process}
        (elim n [ zero ↦ (none, w) | suc k ↦ (some 7, record w { kids = k }) ])
        (some pid, w')
    → n ≡ suc w'.kids
collects w zero pid w' e = absurd (ground (arith, ap (λ x. x.0) e))
collects w (suc n) pid w' e = ap (λ x. suc (x.1.kids)) e

lonely :
    (w : Process) (n : ℕ) (w' : Process)
    → ◌≡◌ {A = Option ℕ × Process}
        (elim n [ zero ↦ (none, w) | suc k ↦ (some 7, record w { kids = k }) ])
        (none, w')
    → n ≡ 0
lonely w zero w' e = refl
lonely w (suc n) w' e = absurd (ground (arith, ap (λ x. x.0) e))

set_limit :
    (b : Bool) (f : ℕ → Rlimit) (r : ℕ) (l : Rlimit) (r' : ℕ)
    → (if b then update f r l else f) r' ≡ (if b then (if r == r' then l else f r') else f r')
set_limit true f r l r' = refl
set_limit false f r l r' = refl

abbrev unix_laws : UnixLaws small_unix
unix_laws = record {
  counts = record {
    children = λ w. w.kids;
    forked = λ w pid w' e. absurd (never_parent e);
    collected = λ w pid w' e. collects w w.kids pid w' e;
    no_child = λ w w' e. lonely w w.kids w' e;
  };
  limit = λ w. w.limits;
  handler = λ w. w.handlers;
  knows = λ r. true;
  getrlimit_gives = λ w r. refl;
  setrlimit_sets = λ w r l r'. set_limit (allowed w r l) w.limits r l r';
  setrlimit_allows = λ w r l fits below. both_tests fits below;
  setrlimit_leaves = λ w r l. (refl, λ s. refl);
  signal_sets = λ w s h s'. refl;
  sigaction_sets = λ w s h s'. refl;
  signal_leaves = λ w s h. (refl, λ r. refl);
  sigaction_leaves = λ w s h. (refl, λ r. refl);
  fork_inherits = λ w w' e. (
    ap (λ x. x.1.kids) (sym e),
    λ r. ap (λ x. x.1.limits r) (sym e),
    λ s. ap (λ x. x.1.handlers s) (sym e),
  );
  setsid_leaves = λ w. (λ r. refl, λ s. refl);
  umask_leaves = λ w mask. (refl, λ r. refl, λ s. refl);
  setpgrp_leaves = λ w. (refl, λ r. refl, λ s. refl);
}
  where
    never_parent :
        {v w : Process} {pid : ℕ}
        → ◌≡◌ {A = ForkResult × Process} (in_child, v) (in_parent pid, w)
        → ⊥
    never_parent e = ground (arith, ap (λ x. x.0) e)

    both_tests : {a b c : ℕ} → a ≤ b → b ≤ c → (leb a b && leb b c) ≡ true
    both_tests p q = ground arith

abbrev shell : Process
shell = record { limits = λ r. both 4096; handlers = λ s. sig_dfl; kids = 0 }

init_daemon_process-IsDaemon_example :
    Safe (λ w'. IsDaemon small_unix unix_laws shell w') (init_daemon_process small_unix shell)
init_daemon_process-IsDaemon_example = init_daemon_process-IsDaemon small_unix unix_laws shell

abbrev machine : Machine
machine = record {
  os = small_os;
  fs = table_fs;
  unix = small_unix;
  inet_aton = λ host. some 2130706433;
  client = λ w. record { conn = 6; node = 4; ip = []; port = 5001 };
  epoll_wait = λ w timeout. (some [], w);
  decimal = λ n. 52 ∷ 50 ∷ [];
  cells = cells;
  nodes = three_timers.nodes;
  save = record { sec = pos 0; usec = pos 0 };
}

abbrev at_start : Worlds machine
at_start = record { io = quiet; files = λ i. none; procs = shell }

-- The texts are not read but by atoi() here.
abbrev arguments : List (List ℕ)
arguments = (49 ∷ []) ∷ (50 ∷ []) ∷ (51 ∷ []) ∷ (52 ∷ []) ∷ (49 ∷ []) ∷ []
