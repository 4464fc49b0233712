-- ===== src/Program.antt =====
-- src/main.c: main(), over the log, the listening socket, the processes and the event loop.
--
-- The files, the descriptors and the processes are three parts of the state, since no call of one
-- part touches another. The messages that go to the log are left out.
pub mod Start
pub mod Results
use tcpframe.Prelude.{
  ℕ, ◌*◌, List, ◌++◌, Option, none, some, Bool, if◌then◌else◌, Run, done, exits, out_of_fuel, ◌>>=◌,
}
use tcpframe.Prelude.Int.{ℤ, pos, negsuc, pos_part}
use tcpframe.Prelude.Text.{codes}
use tcpframe.Time.{TimeDiff}
use tcpframe.MinHeap.{TimeoutEvent}
use tcpframe.Os.{Os}
use tcpframe.Log.{Fs, LogHandle, create_logfile_handle, destroy_logfile_handle}
use tcpframe.SocketSetup.{create_tcp_server}
use tcpframe.Reactor.{EventBase, FdEvent, event_base_create}
use tcpframe.Server.{Server}
use tcpframe.Dispatch.{Client, EpollEvent, dispatch_loop}
use tcpframe.Master.{
  Arguments, read_arguments, Turn, next, as_child, fork_error, wait_error, master_loop,
}
use tcpframe.Master.Daemon.{
  Unix, sig_dfl, parent_sig_handler, child_sig_handler, sigchld, sigterm, init_daemon_process,
}

-- What main() runs on: the system's calls, the clients that come, the text of a process's number,
-- and what malloc's blocks and the stack hold before they are written.
pub record Machine : Type 1 where
  pub os : Os
  pub fs : Fs
  pub unix : Unix
  pub inet_aton : List ℕ → Option ℕ
  pub client : os.World → Client
  pub epoll_wait : os.World → ℤ → Option (List EpollEvent) × os.World
  pub decimal : ℕ → List ℕ
  pub cells : ℕ → FdEvent
  pub nodes : ℕ → TimeoutEvent
  pub save : TimeDiff

pub record Worlds (m : Machine) : Type 0 where
  pub io : m.os.World
  pub files : m.fs.World
  pub procs : m.unix.processes.World

abbrev pub log_size_master : ℤ
log_size_master = pos (1024 * 10240)

abbrev pub log_size_worker : ℤ
log_size_worker = pos (1024 * 1024 * 10)

module _ (m : Machine) (fuel : ℕ) where
  -- What is returned, and the state.
  abbrev pub Result : Type 0
  Result = ℤ × Worlds m

  -- The event loop of a worker.
  unfoldable pub run_worker : Worlds m → Option EventBase → Run Result
  run_worker w none = done (negsuc 0, w)
  run_worker w (some b) =
      dispatch_loop m.os m.client m.epoll_wait fuel fuel w.io
        (record { base = b; conns = λ p. none }) m.save
      >>= λ (s, io). done (pos 0, record w { io = io })

  -- What a worker does once it has its log.
  unfoldable pub worker_with_log : Worlds m → ℕ → ℕ → Option LogHandle → Run Result
  worker_with_log w fd max_clients none = done (negsuc 0, w)
  worker_with_log w fd max_clients (some h) = do
    let procs = m.unix.signal w.procs sigterm child_sig_handler
    (base, io) ← event_base_create m.os w.io fd max_clients m.cells m.nodes
    run_worker (record w { io = io; procs = procs }) base

  -- main() after the loop of the master, in a child.
  unfoldable pub worker : Worlds m → Option LogHandle → ℕ → ℤ → Run Result
  worker w log fd max_clients =
      let (gone, files) = destroy_logfile_handle m.fs w.files log in
      let name = codes "./log/connsvr-worker-" ++ m.decimal (m.os.getpid w.io) in
      do
        (made, global, files') ←
            create_logfile_handle m.fs files (some name) (pos 5) log_size_worker (pos 5) gone
        worker_with_log (record w { files = files' }) fd (pos_part max_clients) made

  -- main() from the end of the loop of the master on. The loop does not end with a next turn.
  unfoldable pub after_loop :
      Worlds m → Option LogHandle → ℕ → ℤ → Turn m.unix.processes → Run Result
  after_loop w log fd max_clients (next k procs) = out_of_fuel
  after_loop w log fd max_clients (as_child procs) =
      worker (record w { procs = procs }) log fd max_clients
  after_loop w log fd max_clients (fork_error procs) = done (negsuc 0, record w { procs = procs })
  after_loop w log fd max_clients (wait_error procs) =
      done (pos 0, record w { procs = m.unix.kill_group procs sigterm })

  -- main() with the descriptor that PynServerCreateTcpServer gave.
  unfoldable pub serve : Worlds m → Option LogHandle → Arguments → ℤ → Run Result
  serve w log a (negsuc n) = done (negsuc 0, w)
  serve w log a (pos fd) = do
    end ← master_loop m.unix.processes fuel w.procs a.worker_count
    after_loop w log fd a.max_clients_count end

  -- main() with the log of the master.
  unfoldable pub with_master_log : Worlds m → Arguments → Option LogHandle → Run Result
  with_master_log w a none = exits
  with_master_log w a (some h) =
      let (fd, io) = create_tcp_server m.os m.inet_aton w.io (some a.server_ip) a.server_port in
      serve (record w { io = io }) (some h) a fd

  -- main() with its arguments read. There is no log before.
  unfoldable pub run_program : Worlds m → Arguments → Run Result
  run_program w a = do
    procs ← if a.daemon then init_daemon_process m.unix w.procs else done w.procs
    let procs' = m.unix.signal (m.unix.signal procs sigchld sig_dfl) sigterm parent_sig_handler
    (made, global, files) ←
        create_logfile_handle m.fs w.files (some (codes "./log/connsvr.log")) (pos 5)
          log_size_master (pos 10) none
    with_master_log (record w { files = files; procs = procs' }) a made

  -- main() of the arguments behind the program's name
  unfoldable pub main_program : Worlds m → List (List ℕ) → Run Result
  main_program w args = do
    read ← read_arguments m.unix.processes args
    elim read [ none ↦ done (negsuc 0, w) | some a ↦ run_program w a ]
