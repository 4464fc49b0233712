-- ===== src/Tests/Server.antt =====
-- One connection: its buffers, a packet that comes in in parts, and its end.
use tcpframe.Prelude.{
  ◌+◌, ◌≤◌, ◌≡◌, refl, ◌≢◌, true, false, Option, List, none, some, [], ◌∷◌, ◌==◌, if◌then◌else◌,
  arith, done, fault, Returns,
}
use tcpframe.Prelude.Int.{ℤ, pos}
use tcpframe.Time.{TimeDiff}
use tcpframe.Packet.{PacketPack}
use tcpframe.Conn.{ConnFd, new_block, must_enlarge, resize_send_buffer_ptr}
use tcpframe.Conn.Send.{
  IsSendable, unsent, resize_send_buffer_ptr-keeps, resize_send_buffer_ptr-overflows,
}
use tcpframe.Server.{Server, with_conn, destroy_conn}
use tcpframe.Server.Io.{recv_body}
use tcpframe.Server.Frame.{recv_body-gives_up}
use tcpframe.Server.Close.{Destroyed, destroy_conn-Destroyed}
use tcpframe.Prelude.Safe.{Safe}
use tcpframe.MinHeap.Order.{IsValid}
use tcpframe.Dispatch.Timeouts.{TimersMatch, TimersLive, Waiting, process_timeout_event-Waiting}
use tcpframe.Dispatch.{Client, EpollEvent, dispatch_loop, process_timeout_event}
use tcpframe.Dispatch.Loop.{stopped, dispatch_loop-never_returns}
use tcpframe.Tests.World.{Streams, small_os, small_laws}
use tcpframe.Tests.Timers.{quiet, base_of_three}
use tcpframe.Tests.Heap.{three_timers, three_timers-IsValid}
use tcpframe.Tests.Io.{mirrored, after_del}

-- The header of a packet of 20 bytes and one byte more have come in.
abbrev waiting : ConnFd
waiting = record {
  timeout_event = 2;
  fd = 7;
  packet_len = 20;
  recv_buf = new_block 4096;
  send_buf = new_block 4096;
  recv_total_len = 4096;
  recv_cur_len = 6;
  send_total_len = 4096;
  send_cur_len = 10;
  send_packet_len = 30;
  ipaddr = [];
  port = 5000;
}

abbrev serving : Server
serving = record { base = base_of_three; conns = λ p. if p == 5 then some waiting else none }

waiting-IsSendable : IsSendable waiting
waiting-IsSendable = record {
  some_byte = omega arith;
  size = refl;
  sent = omega arith;
  within = omega arith;
}

resize_send_buffer_ptr-keeps_example :
    Returns
      (λ (at, c').
        (at ≡ c'.send_packet_len)
        × (at + 4070 ≤ c'.send_buf.total)
        × (unsent c' ≡ unsent waiting)
        × IsSendable c')
      (resize_send_buffer_ptr true waiting 4070)
unfolding must_enlarge
resize_send_buffer_ptr-keeps_example =
    resize_send_buffer_ptr-keeps true waiting 4070 waiting-IsSendable refl

resize_send_buffer_ptr-overflows_example : resize_send_buffer_ptr true waiting 5000 ≡ fault
unfolding must_enlarge
resize_send_buffer_ptr-overflows_example =
    resize_send_buffer_ptr-overflows waiting 5000 waiting-IsSendable refl (omega arith)

abbrev two_bytes : Streams
two_bytes = record quiet { queue = 1 ∷ 2 ∷ [] }

recv_body-gives_up_example :
    recv_body small_os 15 quiet serving 5 waiting
    ≡ destroy_conn small_os quiet (with_conn serving 5 waiting) 5
recv_body-gives_up_example =
    recv_body-gives_up small_os small_laws quiet serving 5 waiting 14 quiet (omega arith) refl

destroy_conn-Destroyed_example :
    Returns
      (λ (s', w''). Destroyed serving 5 waiting s' × (w'' ≡ small_os.close after_del 7))
      (destroy_conn small_os quiet serving 5)
destroy_conn-Destroyed_example =
    destroy_conn-Destroyed small_os small_laws quiet serving 5 waiting 1 after_del refl mirrored
      (omega arith) refl refl three_timers-IsValid (omega arith) refl (λ _. omega arith)

abbrev question : PacketPack
question = record {
  block = new_block 4096;
  base = 0;
  body_pos = 13;
  tailer = 30;
  header = 0;
  total = 31;
}

abbrev visitor : Streams → Client
visitor w = record { conn = 6; node = 4; ip = []; port = 5001 }

-- epoll_wait reports that the descriptor 7 can be read.
abbrev readable : Streams → ℤ → Option (List EpollEvent) × Streams
readable w timeout = (
  some (
      record { fd = 7; epollin = true; epollout = false; epollhup = false; epollerr = false } ∷ []),
  w,
)

abbrev no_save : TimeDiff
no_save = record { sec = pos 0; usec = pos 0 }

dispatch_loop-never_returns_example :
    (dispatch_loop small_os visitor readable 15 3 quiet serving no_save ≢ done (serving, quiet))
    × (dispatch_loop small_os visitor readable 15 3 quiet (stopped serving) no_save
        ≢ done (serving, quiet))
dispatch_loop-never_returns_example =
    dispatch_loop-never_returns small_os visitor readable 15 3 quiet serving no_save
      (serving, quiet) refl

-- The timers of the nodes 1 and 2 are due, and the node 2 is that of the connection.
abbrev expiring : Server
expiring = record {
  base = record base_of_three {
    time_cache = record { sec = 1002; usec = 500000 };
    heap = record three_timers {
      nodes = λ p. record (three_timers.nodes p) { callback_arg = if p == 2 then 5 else 0 };
    };
  };
  conns = serving.conns;
}

expiring-IsValid : IsValid expiring.base.heap
expiring-IsValid = record {
  fits = three_timers-IsValid.fits;
  nonnull = three_timers-IsValid.nonnull;
  order = three_timers-IsValid.order;
  index = three_timers-IsValid.index;
  normal = three_timers-IsValid.normal;
}

expiring-TimersMatch : TimersMatch expiring
expiring-TimersMatch q p c held arg live = ground (arith, arg, live)

expiring-TimersLive : TimersLive expiring
expiring-TimersLive q held given =
    let hit : (q == 2) ≡ true = ground (arith, given) in rw hit (waiting, refl, omega arith)

process_timeout_event-Waiting_example :
    Safe
      (λ (s', w'). Waiting expiring s')
      (process_timeout_event small_os visitor readable 15 4 quiet expiring)
process_timeout_event-Waiting_example =
    process_timeout_event-Waiting small_os visitor readable 15 4 quiet expiring expiring-IsValid
      (omega arith) expiring-TimersMatch expiring-TimersLive (omega arith)
