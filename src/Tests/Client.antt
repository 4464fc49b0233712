-- ===== src/Tests/Client.antt =====
-- The benchmark client: one connection, through to the last response.
use tcpframe.Prelude.{
  ◌≡◌, refl, true, false, Option, List, none, some, [], ◌∷◌, arith, ret_succ, ◌≢◌, subst, Run, done,
  exits, Returns,
}
use tcpframe.Prelude.Int.{ℤ, sub_ℕ}
use tcpframe.Prelude.Safe.{Safe}
use tcpframe.Os.{Os, event_writable}
use tcpframe.Dispatch.{EpollEvent}
use tcpframe.Client.Types.{
  ClientFd, Worker, send_to_server, recv_from_server, free_place, init_config, with_client,
  compare_latency, touch_time, ensure_time, get_usec_time,
}
use tcpframe.Client.Events.{reactor_client_init, reactor_close_connection_normal}
use tcpframe.Client.Callbacks.{
  note_recv, send_to_server_callback, recv_from_server_callback, note_touch, note_latency,
  read_loop, read_once, finish_read, count_response,
}
use tcpframe.Client.Loop.{
  Watch, check_timeouts, init_single_reactor, benchmark_rounds, benchmark_round,
}
use tcpframe.Client.Places.{occupied, IsSound}
use tcpframe.Client.Open.{Kept, Opened}
use tcpframe.Client.Reuse.{reactor_client_init-Opened}
use tcpframe.Client.Answer.{send_to_server_callback-Local, recv_from_server_callback-Local}
use tcpframe.Client.Rounds.{init_single_reactor-Full}
use tcpframe.Client.Ending.{benchmark_rounds-Ends}
use tcpframe.Client.Batch.{benchmark_round-Kept}
use tcpframe.Client.Ready.{sending, Armed}
use tcpframe.Client.Local.{Local}
use tcpframe.Client.Latency.{compare_latency-sub_ℕ}
use tcpframe.Tests.World.{Streams, stream_os, stream_laws, noon}

abbrev net : Os
net = stream_os (λ fd. false)

abbrev quiet_world : Streams
quiet_world = record { queue = []; interest = λ fd. none; sent = [] }

abbrev answered_world : Streams
answered_world = record { queue = 72 ∷ 84 ∷ []; interest = λ fd. none; sent = [] }

-- A worker that asks for one client and one request.
abbrev small_worker : Worker
small_worker = record init_config { need_client_num = 1; need_request_num = 1 }

abbrev busy_client : ClientFd
busy_client = record free_place {
  fd = some 7;
  mask = event_writable;
  pep_loop = true;
  send_buf_len = 334;
  w_func_proc = some send_to_server;
  r_func_proc = some recv_from_server;
}

-- The worker with its one client, whose request is still to be sent.
abbrev busy_worker : Worker
busy_worker = record (with_client small_worker 0 busy_client) { live_client_num = 1 }

small_worker-IsSound : IsSound small_worker
unfolding init_config occupied
small_worker-IsSound = record {
  some_client = omega arith;
  few = omega arith;
  each = λ i lt. record {
    placed = λ fd e. absurd (ground (arith, e));
    attached = λ o. absurd (ground (arith, o));
    sent = omega arith;
    send_room = omega arith;
    recv_room = omega arith;
  };
  live_eq = refl;
  done_le = omega arith;
  few_requests = omega arith;
}

busy_worker-IsSound : IsSound busy_worker
unfolding init_config occupied
busy_worker-IsSound = record {
  some_client = omega arith;
  few = omega arith;
  each = λ i lt.
      let e : i ≡ 0 = omega (arith, lt) in
      rw e (record {
        placed = λ fd h. omega arith;
        attached = λ o. refl;
        sent = omega arith;
        send_room = omega arith;
        recv_room = omega arith;
      });
  live_eq = refl;
  done_le = omega arith;
  few_requests = omega arith;
}

reactor_client_init-Opened_example :
    Safe
      (λ (r, s', w'). Opened small_worker r s')
      (reactor_client_init net quiet_world small_worker)
reactor_client_init-Opened_example =
    reactor_client_init-Opened net (λ w op fd m. refl) quiet_world small_worker small_worker-IsSound

init_single_reactor-Full_example :
    Safe
      (λ (r, s', w').
        r ≡ ret_succ → IsSound s' × (s'.live_client_num ≡ 1) × Armed s'.need_client_num s'.clients)
      (init_single_reactor net quiet_world small_worker)
unfolding init_config
init_single_reactor-Full_example =
    init_single_reactor-Full net (λ w op fd m. refl) quiet_world small_worker (omega arith)
      (omega arith) (omega arith) refl refl

send_to_server_callback-Local_example :
    Safe
      (λ (s', w'). Local 0 busy_worker s')
      (send_to_server_callback net 1 quiet_world busy_worker 0)
unfolding init_config
send_to_server_callback-Local_example =
    send_to_server_callback-Local net (stream_laws (λ fd. false)) (λ w op fd m. refl) 1 quiet_world
      busy_worker 0 busy_worker-IsSound (omega arith) refl (omega arith) (omega arith)

recv_from_server_callback-Local_example :
    Safe
      (λ (s', w'). Local 0 busy_worker s')
      (recv_from_server_callback net 1 answered_world busy_worker 0)
unfolding init_config
recv_from_server_callback-Local_example =
    recv_from_server_callback-Local net (stream_laws (λ fd. false)) (λ w op fd m. refl) 1
      answered_world busy_worker 0 busy_worker-IsSound (omega arith) refl (omega arith)

abbrev one_answer : Streams → ℤ → Option (List EpollEvent) × Streams
one_answer w msec = (
  some (
      record { fd = 7; epollin = true; epollout = false; epollhup = false; epollerr = false } ∷ []),
  w,
)

-- The last check was a moment ago.
abbrev checked : Watch
checked = record { epoll_fail = 0; last_check = 1000000000 }

-- A call that came back does not end the process in the check of the timeouts that follows.
StaysUp : Run (Worker × Streams) → Type 0
StaysUp (done (s, w)) = check_timeouts net one_answer 1 w s checked ≢ exits
StaysUp _ = Unit

answered_stays :
    StaysUp (recv_from_server_callback net 1 answered_world (record busy_worker { time = noon }) 0)
unfolding StaysUp init_config recv_from_server_callback note_recv note_touch note_latency
    get_usec_time ensure_time touch_time read_loop read_once finish_read count_response
    reactor_close_connection_normal check_timeouts
answered_stays e = cc

benchmark_rounds-Ends_example :
    Returns
      (λ (s', w'). IsSound s' × (s'.stop ≡ 0))
      (benchmark_rounds net one_answer 1 2 answered_world busy_worker checked)
unfolding init_config touch_time note_recv note_touch note_latency get_usec_time StaysUp
benchmark_rounds-Ends_example =
    benchmark_rounds-Ends net (stream_laws (λ fd. false)) (λ w op fd m. refl) one_answer 0 1
      answered_world answered_world busy_worker checked
      (record { fd = 7; epollin = true; epollout = false; epollhup = false; epollerr = false }) 7
      (72 ∷ 84 ∷ []) quiet_world busy_worker-IsSound refl refl refl refl refl refl refl
      (omega arith) (omega arith) refl (omega arith)
      (λ s2 v2 back. subst StaysUp back answered_stays)

compare_latency-sub_ℕ_example : compare_latency 1500 2500 ≡ sub_ℕ 1500 2500
compare_latency-sub_ℕ_example =
    compare_latency-sub_ℕ 1500 2500 (omega arith) (omega arith) (omega arith) (omega arith)

abbrev writable_event : EpollEvent
writable_event = record {
  fd = 7;
  epollin = false;
  epollout = true;
  epollhup = false;
  epollerr = false;
}

abbrev one_writable : Streams → ℤ → Option (List EpollEvent) × Streams
one_writable w msec = (some (writable_event ∷ []), w)

benchmark_round-Kept_example :
    Safe
      (λ (s', watch', w'). Kept busy_worker s' × Armed s'.need_client_num s'.clients)
      (benchmark_round net one_writable 1 quiet_world busy_worker
        (record { epoll_fail = 0; last_check = 0 }))
unfolding init_config
benchmark_round-Kept_example =
    benchmark_round-Kept net (stream_laws (λ fd. false)) (λ w op fd m. refl) one_writable 1
      (λ v. omega arith) quiet_world busy_worker (record { epoll_fail = 0; last_check = 0 })
      (writable_event ∷ []) quiet_world busy_worker-IsSound
      (λ i lt o. let e : i ≡ 0 = omega (arith, lt) in rw e (sending refl refl (omega arith))) refl
      (record { taken = refl; reads = λ h. absurd (ground (arith, h)); writes = λ h. refl }, tt, tt)
