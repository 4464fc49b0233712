-- ===== src/Master.antt =====
-- src/main.c: the arguments of the program, and the loop in which the master keeps its workers.
--
-- fork(), wait() and atoi() are parameters. What a worker then does is modelled in Reactor and
-- Dispatch; the daemon, the limits and the signals are left out.
pub mod Supervision
pub mod Daemon
pub mod Limits
use tcpframe.Prelude.{
  ℕ, zero, suc, ◌+◌, ◌-◌, ltb, ◌==◌, Bool, true, false, if◌then◌else◌, List, [], ◌∷◌, Option, none,
  some, Run, done, fault, out_of_fuel,
}
use tcpframe.Prelude.Int.{ℤ, pos, negsuc}

pub data ForkResult : Type 0 where
  fork_failed in_child : ForkResult
  in_parent : ℕ → ForkResult

pub record Processes : Type 1 where
  pub World : Type 0
  pub fork : World → ForkResult × World
  -- wait(): the process that has ended, or an error
  pub wait : World → Option ℕ × World
  pub atoi : List ℕ → ℤ

pub record Arguments : Type 0 where
  pub server_ip : List ℕ
  pub server_port : ℤ
  pub worker_count : ℕ
  pub max_clients_count : ℤ
  pub daemon : Bool

-- `if (iWorkerCount <= 0) iWorkerCount = 1`
abbrev pub some_worker : ℤ → ℕ
some_worker (pos zero) = 1
some_worker (pos (suc n)) = suc n
some_worker (negsuc n) = 1

abbrev pub is_one : ℤ → Bool
is_one (pos n) = n == 1
is_one (negsuc n) = false

module _ (os : Processes) where
  open os use {World, fork, wait, atoi}

  -- The arguments after the program's name. Fewer than four are refused; with four, argv[5] is NULL,
  -- which atoi() reads.
  unfoldable pub read_arguments : List (List ℕ) → Run (Option Arguments)
  read_arguments [] = done none
  read_arguments (a ∷ []) = done none
  read_arguments (a ∷ b ∷ []) = done none
  read_arguments (a ∷ b ∷ c ∷ []) = done none
  read_arguments (a ∷ b ∷ c ∷ d ∷ []) = fault
  read_arguments (ip ∷ port ∷ workers ∷ clients ∷ sign ∷ more) = done (
      some (record {
        server_ip = ip;
        server_port = atoi port;
        worker_count = some_worker (atoi workers);
        max_clients_count = atoi clients;
        daemon = is_one (atoi sign);
      }))

  -- How a turn of the loop ends: with another turn, or in the loop's end.
  pub data Turn : Type 0 where
    next : ℕ → World → Turn
    as_child fork_error wait_error : World → Turn

  -- One turn: a worker is missing and is started, or else the end of one is waited for.
  unfoldable pub master_turn : World → ℕ → Turn
  master_turn w missing =
      let (forked, w1) = fork w in
      let (ended, w2) = wait w in
      let start : Turn = elim forked [
        | fork_failed ↦ fork_error w1
        | in_child ↦ as_child w1
        | in_parent pid ↦ next (missing - 1) w1
      ] in
      let collect : Turn = elim ended [ none ↦ wait_error w2 | some pid ↦ next (missing + 1) w2 ] in
      if ltb 0 missing then start else collect

  -- The loop, of which the fuel bounds the turns.
  unfoldable pub master_loop : ℕ → World → ℕ → Run Turn
  unfolding master_turn
  master_loop zero w missing = out_of_fuel
  master_loop (suc k) w missing =
      let turn = master_turn w missing in
      elim turn [
        | next m w' ↦ master_loop k w' m
        | as_child w' ↦ done (as_child w')
        | fork_error w' ↦ done (fork_error w')
        | wait_error w' ↦ done (wait_error w')
      ]
