-- ===== src/Tests/Stream.antt =====
-- A packet of which seven bytes come in, and an echo packet that came in whole.
use tcpframe.Prelude.{
  ℕ, ◌+◌, ◌<◌, ◌≡◌, refl, List, [], Option, some, none, ◌==◌, if◌then◌else◌, arith, inl, Run, done,
}
use tcpframe.Prelude.Bytes.{take, write_at, get32, read_at}
use tcpframe.Prelude.Safe.{Safe}
use tcpframe.SocketIo.{recv_data, recv_loop, fill}
use tcpframe.Conn.{ConnFd, new_block, resize_recv_buffer_ptr, must_resize}
use tcpframe.Server.{Server, deref}
use tcpframe.Server.Io.{finish_packet, process_recv_callback, check_head, recv_body, bad_head}
use tcpframe.Server.Collect.{Coming, Arrived, Collects}
use tcpframe.Server.Sending.{Delivers}
use tcpframe.Server.Wakes.{Wakes}
use tcpframe.Server.Stream.{starts, reads, process_recv_callback-Streams, echo_round_trip}
use tcpframe.Tests.World.{Streams, small_os, small_laws}
use tcpframe.Tests.Timers.{quiet, base_of_three}
use tcpframe.Tests.Io.{mirrored}
use tcpframe.Tests.Echo.{request_bytes, echo_request, asked, can_restart}

abbrev seven_bytes : List ℕ
seven_bytes = take 7 request_bytes

abbrev listening : ConnFd
listening = record echo_request { recv_buf = new_block 4096; recv_cur_len = 0; packet_len = 0 }

abbrev ready : Server
ready = record { base = base_of_three; conns = λ p. if p == 5 then some listening else none }

abbrev arriving : Streams
arriving = record quiet { queue = seven_bytes }

abbrev result_of : Run (Server × Streams) → Server × Streams
result_of (done x) = x
result_of _ = (ready, quiet)

abbrev after_read : Server × Streams
after_read = result_of (process_recv_callback small_os 5000 arriving ready 5)

abbrev conn_of : Option ConnFd → ConnFd
conn_of (some c) = c
conn_of none = listening

abbrev half_read : ConnFd
half_read = conn_of (after_read.0.conns 5)

reads_half : process_recv_callback small_os 5000 arriving ready 5 ≡ done after_read
unfolding process_recv_callback deref recv_data recv_loop fill check_head bad_head get32 write_at
    must_resize resize_recv_buffer_ptr recv_body
reads_half = refl

is_there : after_read.0.conns 5 ≡ some half_read
unfolding process_recv_callback deref recv_data recv_loop fill check_head bad_head get32 write_at
    must_resize resize_recv_buffer_ptr recv_body
is_there = refl

seven_there : half_read.recv_cur_len ≡ 7
unfolding process_recv_callback deref recv_data recv_loop fill check_head bad_head get32 write_at
    must_resize resize_recv_buffer_ptr recv_body
seven_there = refl

opens_Coming : Coming small_os small_laws 7 seven_bytes arriving listening
unfolding read_at
opens_Coming = (
  record {
    same_fd = refl;
    sound = record { some_byte = omega arith; size = refl; within = omega arith };
    bytes = refl;
  },
  inl (omega arith, omega arith),
)

process_recv_callback-Streams_example :
    (c : ConnFd) × (after_read.0.conns 5 ≡ some c)
    × Coming small_os small_laws 7 seven_bytes after_read.1 c
    × ((k : ℕ)
        → 0 + 4096 < k
        → Collects small_os small_laws 7 seven_bytes k after_read.0 5 c.recv_cur_len
            (process_recv_callback small_os k after_read.1 after_read.0 5))
process_recv_callback-Streams_example =
    process_recv_callback-Streams small_os small_laws 7 seven_bytes 5 ready arriving (omega arith)
      (listening, refl, opens_Coming) after_read.0 after_read.1
      (reads after_read.0 after_read.1 5000 half_read starts (omega arith) reads_half is_there
        (omega (arith, seven_there)))

echo_Arrived : Arrived small_os small_laws 7 request_bytes quiet echo_request
unfolding read_at write_at get32
echo_Arrived = (
  record {
    same_fd = refl;
    sound = record { some_byte = omega arith; size = refl; within = omega arith };
    bytes = refl;
  },
  record { soh = refl; len = refl; bounds = (omega arith, omega arith); room = omega arith },
  refl,
)

last_byte : echo_request.recv_buf.cells 17 ≡ 41
unfolding write_at
last_byte = refl

command : get32 echo_request.recv_buf.cells 5 ≡ 0x3000
unfolding write_at get32
command = refl

echo_round_trip_example :
    Safe
      (λ (s1, w1).
        (s2 : Server) (w2 : Streams)
        → Wakes small_os small_laws 5 7 [] (take 18 request_bytes) s1 w1 s2 w2
        → Delivers small_os small_laws 5 7 [] (take 18 request_bytes) (s2, w2))
      (finish_packet small_os 20 quiet asked 5 echo_request)
echo_round_trip_example =
    echo_round_trip small_os small_laws 7 request_bytes 5 20 quiet asked echo_request 0
      (omega arith) (omega arith) echo_Arrived last_byte command (omega arith) refl refl mirrored
      (omega arith) can_restart
