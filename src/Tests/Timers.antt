-- ===== src/Tests/Timers.antt =====
-- Timers that are registered, and the wait of the reactor.
use tcpframe.Prelude.{ℕ, ◌≡◌, true, none, some, [], ◌==◌, if◌then◌else◌, arith, Returns, ret_succ}
use tcpframe.Prelude.Int.{pos}
use tcpframe.Time.{TimeDiff}
use tcpframe.Os.{event_none, event_readable}
use tcpframe.Reactor.{EventBase, FdEvent, epoll_lt_type, process_recv}
use tcpframe.Timers.{register_timer_out_event}
use tcpframe.Timers.Register.{Registered, register_again}
use tcpframe.Tests.World.{Streams, noon}
use tcpframe.Tests.Heap.{three_timers, three_timers-IsValid}

abbrev pub quiet : Streams
quiet = record {
  queue = [];
  sent = [];
  interest = λ fd. if fd == 7 then some event_readable else none;
}

-- The descriptor 7 is watched for reading.
abbrev pub cells : ℕ → FdEvent
cells fd = record {
  mask = if fd == 7 then event_readable else event_none;
  callback_write = none;
  callback_read = some process_recv;
  arg = 5;
}

abbrev pub base_of_three : EventBase
base_of_three = record {
  size = 64;
  fd_event_array_size = 64;
  stop_sign = 0;
  ep_type = epoll_lt_type;
  epfd = 3;
  listen_fd = 4;
  client_count = pos 3;
  time_cache = noon;
  heap = three_timers;
  fd_events = cells;
}

abbrev no_save : TimeDiff
no_save = record { sec = pos 0; usec = pos 0 }

register_again_example :
    Returns
      (λ (r, b'). (r ≡ ret_succ) × Registered base_of_three 1 60000 b')
      (register_timer_out_event (λ n. true) base_of_three 1 60000)
register_again_example =
    register_again (λ n. true) base_of_three 0 60000 three_timers-IsValid (omega arith)
      (omega arith) (λ lt. omega arith)
