-- ===== src/Tests/Echo.antt =====
-- An echo packet that has come in whole, and its answer.
use tcpframe.Prelude.{
  ℕ, ◌≡◌, refl, List, [], ◌∷◌, some, none, ◌==◌, if◌then◌else◌, arith, inr, inl, done,
}
use tcpframe.Prelude.Bytes.{write_at, get32, read_at}
use tcpframe.Prelude.Safe.{Safe}
use tcpframe.SocketIo.{send_data, send_loop}
use tcpframe.Reactor.{event_del}
use tcpframe.Conn.{ConnFd, new_block}
use tcpframe.Server.{Server, with_conn, deref}
use tcpframe.Server.Io.{finish_packet, finish_send, process_send_callback}
use tcpframe.Server.Watch.{CanRestart}
use tcpframe.Server.Sending.{Half, Delivers}
use tcpframe.Server.Wakes.{start_here, wake, process_send_callback-Delivers}
use tcpframe.Server.Echo.{IsEchoRequest, Answering, finish_packet-Answering}
use tcpframe.Tests.World.{Streams, small_os, small_laws}
use tcpframe.Tests.Timers.{quiet, base_of_three}
use tcpframe.Tests.Heap.{three_timers-IsValid}
use tcpframe.Tests.Io.{mirrored}

-- 18 bytes: the header, the command 0x3000, the number 1, the body "hi!!" and the end.
abbrev pub request_bytes : List ℕ
request_bytes = 40 ∷ 0 ∷ 0 ∷ 0 ∷ 18 ∷ 0 ∷ 0 ∷ 48 ∷ 0 ∷ 0 ∷ 0 ∷ 0 ∷ 1 ∷ 104 ∷ 105 ∷ 33 ∷ 33 ∷ 41 ∷ []

abbrev pub echo_request : ConnFd
echo_request = record {
  timeout_event = 1;
  fd = 7;
  packet_len = 18;
  recv_buf = record { cells = write_at (λ _. 0) 0 request_bytes; total = 4096 };
  send_buf = new_block 4096;
  recv_total_len = 4096;
  recv_cur_len = 18;
  send_total_len = 4096;
  send_cur_len = 0;
  send_packet_len = 0;
  ipaddr = [];
  port = 5000;
}

abbrev pub asked : Server
asked = record { base = base_of_three; conns = λ p. if p == 5 then some echo_request else none }

echo_request-IsEchoRequest : IsEchoRequest echo_request
unfolding write_at get32
echo_request-IsEchoRequest = record {
  whole = refl;
  some_byte = omega arith;
  stored = omega arith;
  soh = refl;
  eot = refl;
  cmd = refl;
  fits = omega arith;
  idle = refl;
}

pub can_restart : CanRestart base_of_three 1 0
can_restart = record {
  valid = three_timers-IsValid;
  clock = omega arith;
  inside = omega arith;
  slot = refl;
  above = λ lt. omega arith;
}

finish_packet-Answering_example :
    Safe
      (λ (s', w').
        Answering small_os small_laws 5 echo_request echo_request-IsEchoRequest quiet asked s' w')
      (finish_packet small_os 20 quiet asked 5 echo_request)
finish_packet-Answering_example =
    finish_packet-Answering small_os small_laws 5 echo_request echo_request-IsEchoRequest 20 quiet
      asked 0 refl mirrored (omega arith) can_restart

abbrev replying : ConnFd
replying = record echo_request { send_buf = echo_request.recv_buf; send_packet_len = 18 }

abbrev before_reply : Server
before_reply = record { base = base_of_three; conns = λ p. if p == 5 then some replying else none }

abbrev after_reply : Server
after_reply = with_conn before_reply 5 (record replying { send_packet_len = 0; send_cur_len = 0 })

abbrev sent_back : Streams
sent_back = record quiet { sent = request_bytes }

replies : process_send_callback small_os 20 quiet before_reply 5 ≡ done (after_reply, sent_back)
unfolding process_send_callback deref send_data send_loop finish_send read_at event_del write_at
replies = refl

starts_Half : Half small_os small_laws 5 7 [] request_bytes quiet replying
unfolding read_at write_at
starts_Half = record {
  same_fd = refl;
  size = refl;
  room = omega arith;
  bytes = refl;
  part = omega arith;
  out = refl;
}

process_send_callback-Delivers_example :
    Delivers small_os small_laws 5 7 [] request_bytes (after_reply, sent_back)
process_send_callback-Delivers_example =
    process_send_callback-Delivers small_os small_laws 5 7 [] request_bytes before_reply quiet
      (omega arith) (omega arith) (inr (replying, refl, inl starts_Half)) after_reply sent_back
      (wake after_reply sent_back 20 start_here (omega arith) replies)
