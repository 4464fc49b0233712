-- ===== src/Client/Main.antt =====
-- client/http/benchmark.c: main.
use tcpframe.Prelude.{ℕ, List, Option, Run, fault, ◌>>=◌, ret_succ, ret_fail}
use tcpframe.Prelude.Int.{ℤ}
use tcpframe.Os.{Os}
use tcpframe.Dispatch.{EpollEvent}
use tcpframe.Client.Types.{Worker, init_config}
use tcpframe.Client.Config.{ClientOption, parse_options}
use tcpframe.Client.Loop.{init_single_reactor, reactor_benchmark_loop}

-- main: the average that it prints, on the options that were given. Where InitSingleReactor fails
-- there is no loop, whose pointer ReactorBenchmarkLoop then follows.
unfoldable pub benchmark_main :
    (os : Os)
    → (os.World → ℤ → Option (List EpollEvent) × os.World)
    → ℕ
    → ℕ
    → os.World
    → List ClientOption
    → Run (ℕ × Worker × os.World)
benchmark_main os epoll_wait fuel rounds w opts =
    parse_options os w init_config opts >>= λ (s1, w1).
    init_single_reactor os w1 s1 >>= λ (r, s2, w2). elim r [
      | ret_fail ↦ fault
      | ret_succ ↦ reactor_benchmark_loop os epoll_wait fuel rounds w2 s2
    ]
