-- ===== src/Client/Loop.antt =====
-- client/http/worker.c: InitSingleReactor, ClearTimeoutConnection, ReactorBenchmarkLoop, and the
-- average of ShowReport; client/http/benchmark.c: main. What is printed is left out.
use tcpframe.Prelude.{
  ℕ, zero, suc, ◌+◌, ◌-◌, ◌*◌, ◌/◌, ◌%◌, ltb, leb, not, ◌&&◌, ◌||◌, ◌==◌, Bool, false,
  if◌then◌else◌, List, [], ◌∷◌, Option, none, some, Run, done, exits, fault, out_of_fuel, ◌>>=◌,
  Ret, ret_succ, ret_fail,
}
use tcpframe.Prelude.Int.{ℤ, pos}
use tcpframe.Os.{Os}
use tcpframe.Dispatch.{EpollEvent}
use tcpframe.Client.Types.{
  ClientFd, Worker, ProcCallback, send_to_server, recv_from_server, free_place, incr,
  max_fail_count, connect_timeout, timeout_usec_timeval, touch_time, get_msec_time, get_usec_time,
}
use tcpframe.Client.Events.{reactor_client_init, replace_client, reactor_reset_client}
use tcpframe.Client.Callbacks.{send_to_server_callback, recv_from_server_callback}

-- The local variables of the loop.
pub record Watch : Type 0 where
  pub epoll_fail : ℕ
  pub last_check : ℕ

-- The average of the latencies in milliseconds, which ShowReport prints: a division by the number of
-- the requests that are done.
unfoldable pub total_latency : (ℕ → ℕ) → ℕ → ℕ
total_latency latency zero = 0
total_latency latency (suc n) = (total_latency latency n + latency n / 1000) % 18446744073709551616

unfoldable pub average_latency : Worker → Run ℕ
unfolding total_latency
average_latency s =
    if s.done_requests == 0
    then fault
    else done (total_latency s.latency s.done_requests / s.done_requests)

module _ (os : Os) where
  open os use {World, epoll_create, malloc}

  -- `while (live < need) ReactorClientInit`; a failure ends the process. Each turn that goes on has
  -- opened a client, so that the fuel need not exceed the clients that are missing.
  unfoldable pub supply_clients : ℕ → World → Worker → Run (Worker × World)
  supply_clients zero w s =
      if ltb s.live_client_num s.need_client_num then out_of_fuel else done (s, w)
  supply_clients (suc k) w s =
      let turn : Run (Worker × World) = reactor_client_init os w s >>= λ (r, s', w'). elim r [
        | ret_fail ↦ exits
        | ret_succ ↦ supply_clients k w' s'
      ] in
      if ltb s.live_client_num s.need_client_num then turn else done (s, w)

  -- InitSingleReactor, with CreateSingleEpollLoop. The mallocs are, in order, the clients, the
  -- latencies, the loop and its events. A number of clients that is negative as an int, once 1 is
  -- added, is refused. main() does not look at a failure.
  unfoldable pub init_single_reactor : World → Worker → Run (Ret × Worker × World)
  init_single_reactor w s =
      let (clients_ok, w1) = malloc w s.need_client_num in
      let (latency_ok, w2) = malloc w1 s.need_request_num in
      let (loop_ok, w3) = malloc w2 1 in
      let (made, w4) = epoll_create w3 in
      let (events_ok, w5) = malloc w4 (s.need_client_num + 1) in
      let fresh = record s { clients = λ _. free_place; latency = λ _. 0; stop = 1 } in
      let supply : Run (Ret × Worker × World) =
        supply_clients s.need_client_num w5 fresh >>= λ (s', w'). done (ret_succ, s', w') in
      if not clients_ok
      then done (ret_fail, s, w1)
      else if not latency_ok
      then done (ret_fail, s, w2)
      else if leb 2147483647 s.need_client_num
      then done (ret_fail, s, w2)
      else if not loop_ok
      then done (ret_fail, s, w3)
      else elim made [
        | none ↦ done (ret_fail, s, w4)
        | some epfd ↦ if not events_ok then done (ret_fail, s, w5) else supply
      ]

  -- Whether ClearTimeoutConnection resets a client. The test is for a descriptor above 0.
  unfoldable pub is_timeout : ℕ → ClientFd → Bool
  is_timeout now c = elim c.fd [
    | none ↦ false
    | some fd ↦ ltb 0 fd && leb (c.touch_time + connect_timeout * 1000000) now
  ]

  -- The clients from `i` on, `k` of them.
  unfoldable pub clear_from : ℕ → ℕ → World → Worker → ℕ → Run (Worker × World)
  clear_from zero i w s now = done (s, w)
  clear_from (suc k) i w s now = do
    (s', w') ←
        if is_timeout now (s.clients i)
        then reactor_reset_client os w (record s { timeout_client_num = incr s.timeout_client_num })
            i
        else done (s, w)
    clear_from k (i + 1) w' s' now

  -- ClearTimeoutConnection
  unfoldable pub clear_timeout_connection : World → Worker → ℕ → Run (Worker × World)
  clear_timeout_connection w s now = clear_from s.need_client_num 0 w s now

  module _ (epoll_wait : World → ℤ → Option (List EpollEvent) × World) (fuel : ℕ) where
    -- A callback of a client; calling one that was never set is a fault.
    unfoldable pub call_proc : Option ProcCallback → World → Worker → ℕ → Run (Worker × World)
    call_proc none w s i = fault
    call_proc (some send_to_server) w s i = send_to_server_callback os fuel w s i
    call_proc (some recv_from_server) w s i = recv_from_server_callback os fuel w s i

    -- One event: an error replaces the client, else the callbacks are called, the second one on the
    -- client that the first has left.
    unfoldable pub handle_event : World → Worker → Watch → EpollEvent → Run (Worker × Watch × World)
    handle_event w s watch e =
        let i = e.fd % s.need_client_num in
        let fails = watch.epoll_fail + 1 in
        let bad : Run (Worker × Watch × World) = do
          (s1, w1) ← replace_client os w s i
          done (s1, record watch { epoll_fail = fails }, w1)
        in let good : Run (Worker × Watch × World) = do
          (s1, w1) ← if e.epollin then call_proc (s.clients i).r_func_proc w s i else done (s, w)
          (s2, w2) ←
              if e.epollout then call_proc (s1.clients i).w_func_proc w1 s1 i else done (s1, w1)
          done (s2, watch, w2)
          in if s.need_client_num == 0
            then fault
            else if e.epollerr || e.epollhup
            then (if ltb max_fail_count fails then exits else bad)
            else good

    unfoldable pub handle_events :
        World → Worker → Watch → List EpollEvent → Run (Worker × Watch × World)
    handle_events w s watch [] = done (s, watch, w)
    handle_events w s watch (e ∷ es) =
        handle_event w s watch e >>= λ (s', watch', w'). handle_events w' s' watch' es

    -- The check that is made every 200 milliseconds; the difference of the times is a uint64. Of
    -- ShowThroughPut, which prints, the reading of the clock is kept.
    unfoldable pub check_timeouts : World → Worker → Watch → Run (Worker × Watch × World)
    check_timeouts w s watch =
        let (now, s1, w1) = get_usec_time os w s in
        let (current, s2, w2) = get_usec_time os w1 s1 in
        let check : Run (Worker × Watch × World) = do
          (s3, w3) ← clear_timeout_connection w2 s2 current
          (s4, w4) ← supply_clients s3.need_client_num w3 s3
          let (shown, s5, w5) = get_msec_time os w4 s4
          let (later, s6, w6) = get_usec_time os w5 s5
          done (s6, record watch { last_check = later }, w6)
        in if ltb timeout_usec_timeval
            ((now + (18446744073709551616 - watch.last_check)) % 18446744073709551616)
          then check
          else done (s1, watch, w1)

    -- One round of ReactorBenchmarkLoop.
    unfoldable pub benchmark_round : World → Worker → Watch → Run (Worker × Watch × World)
    benchmark_round w s watch =
        let (events, w1) = epoll_wait w (pos 2000) in
        let (s1, w2) = touch_time os w1 s in
        let es : List EpollEvent = elim events [ none ↦ [] | some es ↦ es ] in
        handle_events w2 s1 watch es >>= λ (s2, watch', w3). check_timeouts w3 s2 watch'

    -- The rounds, while `stop` is not 0.
    unfoldable pub benchmark_rounds : ℕ → World → Worker → Watch → Run (Worker × World)
    benchmark_rounds zero w s watch = out_of_fuel
    benchmark_rounds (suc k) w s watch =
        let more =
          benchmark_round w s watch >>= λ (s', watch', w'). benchmark_rounds k w' s' watch' in
        if s.stop == 0 then done (s, w) else more

    -- ReactorBenchmarkLoop, with the average that its report ends with.
    unfoldable pub reactor_benchmark_loop : ℕ → World → Worker → Run (ℕ × Worker × World)
    reactor_benchmark_loop rounds w s =
        let (msec, s1, w1) = get_msec_time os w s in
        let (usec, s2, w2) = get_usec_time os w1 (record s1 { start_time = msec }) in
        do
          (s3, w3) ← benchmark_rounds rounds w2 s2 (record { epoll_fail = 0; last_check = usec })
          let (end, s4, w4) = get_msec_time os w3 s3
          average ← average_latency s4
          done (average, record s4 { end_time = end }, w4)
