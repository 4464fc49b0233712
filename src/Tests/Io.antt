-- ===== src/Tests/Io.antt =====
-- Reads, writes and registrations on the small operating system.
use tcpframe.Prelude.{
  ℕ, true, ◌+◌, ◌≡◌, ◌≢◌, refl, some, [], ◌∷◌, arith, done, Returns, ret_succ, ret_fail,
}
use tcpframe.Os.{ctl_mod, event_none, event_readable, event_writable, event_both}
use tcpframe.Prelude.Int.{pos}
use tcpframe.MinHeap.{create}
use tcpframe.Reactor.Create.{event_base_create_garbage}
use tcpframe.Reactor.{
  create_new_event_base, event_base_create, EventBase, with_event, del_op, process_send,
  process_recv, event_add, event_del,
}
use tcpframe.Reactor.Events.{
  Mirrors, event_add-Mirrors, event_del-Mirrors, event_add_failure_sticks,
}
use tcpframe.SocketIo.{Block, recv_data, send_data}
use tcpframe.SocketIo.Recv.{Received, recv_data-Received}
use tcpframe.SocketIo.Send.{Sent, send_data-Sent}
use tcpframe.Tests.Heap.{three_timers}
use tcpframe.Tests.World.{Streams, small_os, small_laws, noon}
use tcpframe.Tests.Timers.{quiet, base_of_three, cells}

abbrev letters : Block
letters = record { cells = λ i. 97 + i; total = 32 }

abbrev talkative : Streams
talkative = record quiet { queue = 1 ∷ 2 ∷ 3 ∷ 4 ∷ 5 ∷ 6 ∷ 7 ∷ [] }

recv_data-Received_example :
    Returns
      (Received small_os small_laws 7 2 talkative letters 2 (2 + 5) 0)
      (recv_data small_os 6 talkative letters 7 2 5)
recv_data-Received_example =
    recv_data-Received small_os small_laws 7 2 6 talkative letters 5 (omega arith) (omega arith)

send_data-Sent_example :
    Returns
      (Sent small_os small_laws letters 7 3 10 quiet 0)
      (send_data small_os 11 quiet letters 7 3 10)
send_data-Sent_example =
    send_data-Sent small_os small_laws letters 7 3 10 11 quiet (omega arith) (omega arith)
      (omega arith)

pub mirrored : Mirrors small_os small_laws base_of_three quiet
mirrored fd lt = ground arith

abbrev after_add : Streams
after_add = (small_os.epoll_ctl quiet ctl_mod 7 event_both).1

event_add-Mirrors_example :
    (b' : EventBase) × (event_add small_os quiet base_of_three 7 event_writable process_send 5
      ≡ done (ret_succ, b', after_add))
    × Mirrors small_os small_laws b' after_add
    × ((b'.fd_events 7).mask.writable ≡ true)
    × ((b'.fd_events 7).mask.readable ≡ true)
    × ((b'.fd_events 7).callback_write ≡ some process_send)
    × ((b'.fd_events 7).callback_read ≡ (cells 7).callback_read)
    × ((b'.fd_events 7).arg ≡ 5)
    × ((g : ℕ) → g ≢ 7 → b'.fd_events g ≡ cells g)
    × (b' ≡ record base_of_three { fd_events = b'.fd_events })
event_add-Mirrors_example =
    event_add-Mirrors small_os small_laws quiet base_of_three 7 event_writable mirrored
      (omega arith) process_send 5 after_add refl refl refl

abbrev pub after_del : Streams
after_del = (small_os.epoll_ctl quiet (del_op event_none) 7 event_none).1

event_del-Mirrors_example :
    (event_del small_os quiet base_of_three 7 event_readable
      ≡ done (
        ret_succ,
        with_event base_of_three 7 (record (cells 7) { mask = event_none }),
        after_del,
      ))
    × Mirrors small_os small_laws
        (with_event base_of_three 7 (record (cells 7) { mask = event_none }))
        after_del
event_del-Mirrors_example =
    event_del-Mirrors small_os small_laws quiet base_of_three 7 event_readable mirrored
      (omega arith) after_del refl refl

event_add_failure_sticks_example :
    (b' : EventBase) × (event_add small_os quiet base_of_three 9 event_readable process_recv 5
      ≡ done (ret_fail, b', quiet))
    × ¬ Mirrors small_os small_laws b' quiet
    × (event_add small_os quiet b' 9 event_readable process_recv 5 ≡ done (ret_succ, b', quiet))
event_add_failure_sticks_example =
    event_add_failure_sticks small_os small_laws quiet base_of_three 9 event_readable mirrored
      (omega arith) process_recv 5 quiet refl refl refl

abbrev created : EventBase
created = record {
  size = 64;
  fd_event_array_size = 64;
  stop_sign = 0;
  ep_type = 0;
  epfd = 3;
  listen_fd = 0;
  client_count = pos 0;
  time_cache = noon;
  heap = create three_timers.nodes 42;
  fd_events = cells;
}

event_base_create_garbage_example :
    (b' : EventBase) × (event_base_create small_os quiet 7 64 cells three_timers.nodes
      ≡ done (some b', quiet))
    × (b'.fd_events ≡ cells)
    × (b'.listen_fd ≡ 7)
unfolding create_new_event_base
event_base_create_garbage_example =
    event_base_create_garbage small_os quiet 7 64 cells three_timers.nodes created quiet refl
      (omega arith) refl
