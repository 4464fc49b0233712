-- ===== src/Server/Echo.antt =====
-- A packet with the command CMD_TEST_ECHO, from ProcessEntirePacket to the bytes that are sent back.
use tcpframe.Prelude.{
  ℕ, ◌+◌, ◌-◌, ◌≤◌, ◌<◌, ◌≡◌, refl, sym, ap, subst, ◌∙◌, ◌≢◌, inl, inr, true, false, List, ◌++◌,
  some, ltb, ◌==◌, arith, done, ◌>>=◌, ret_succ, Returns, Returns-inv, Returns-map,
}
use tcpframe.Prelude.Bytes.{length-read_at, read_at, write_at, get32}
use tcpframe.Prelude.Safe.{Safe, Safe-done, Safe-bind, Safe-weaken, Returns-Safe}
use tcpframe.Prelude.Unless.{Unless-returned}
use tcpframe.MinHeap.{null}
use tcpframe.Os.{Os, OsLaws}
use tcpframe.Reactor.Events.{Mirrors, watched}
use tcpframe.Timers.{register_timer_out_event}
use tcpframe.Timers.Register.{Registered, register_again}
use tcpframe.Packet.{
  PacketPack, proto_soh, proto_eot, packet_cmd_pos, packet_body_pos, get_packet_cmd,
  string2_packet_pack, peek,
}
use tcpframe.Conn.{ConnFd, copy_out}
use tcpframe.Conn.Recv.{copy_out-done, kept_bytes}
use tcpframe.SocketIo.Send.{append_nil}
use tcpframe.Server.Defs.{Server, with_conn, deref, max_conn_timeout}
use tcpframe.Server.Packets.{
  cmd_test_echo, watch_write, send_back_echo, process_command, process_entire_packet,
}
use tcpframe.Server.Io.{finish_packet}
use tcpframe.Server.Sending.{opens, Half, Delivers}
use tcpframe.Server.Wakes.{Wakes, process_send_callback-Delivers}
use tcpframe.Server.Watch.{
  CanRestart, restart_elsewhere, registered_elsewhere, register_timer_rest, Watched,
  watch_write-Watched,
}

-- A whole echo packet stands in the receive buffer, and nothing is being sent.
pub record IsEchoRequest (c : ConnFd) : Type 0 where
  pub whole : c.recv_cur_len ≡ c.packet_len
  pub some_byte : 0 < c.packet_len
  pub stored : c.packet_len ≤ c.recv_buf.total
  pub soh : c.recv_buf.cells 0 ≡ proto_soh
  pub eot : c.recv_buf.cells (c.packet_len - 1) ≡ proto_eot
  pub cmd : get32 c.recv_buf.cells packet_cmd_pos ≡ cmd_test_echo
  pub fits : c.packet_len ≤ c.send_buf.total
  pub idle : c.send_cur_len ≡ 0

-- The packet's bytes.
abbrev pub packet_of : ConnFd → List ℕ
packet_of c = read_at c.recv_buf.cells 0 c.packet_len

-- The connection as SendBackEcho leaves it.
abbrev pub echoed : ConnFd → ConnFd
echoed c = record c {
  send_buf = record c.send_buf { cells = write_at c.send_buf.cells 0 (packet_of c) };
  send_packet_len = c.packet_len;
}

module _ (os : Os) (laws : OsLaws os) where
  module _ (p : ℕ) (c : ConnFd) (v : IsEchoRequest c) where
    -- The packet that String2PacketPack makes of the bytes received.
    abbrev parsed : PacketPack
    parsed = record {
      block = c.recv_buf;
      base = 0;
      body_pos = packet_body_pos;
      tailer = c.packet_len - 1;
      header = 0;
      total = c.packet_len;
    }

    parses : string2_packet_pack true c.recv_buf 0 c.recv_cur_len ≡ done (some parsed)
    unfolding string2_packet_pack peek
    parses =
        let some_byte : (c.packet_len == 0) ≡ false = ground (arith, v.some_byte) in
        let first_in : ltb 0 c.recv_buf.total ≡ true = ground (arith, v.some_byte, v.stored) in
        let at_last : 0 + (c.packet_len - 1) ≡ c.packet_len - 1 = omega arith in
        let last_in : ltb (c.packet_len - 1) c.recv_buf.total ≡ true =
          ground (arith, v.some_byte, v.stored) in
        rw (v.whole, first_in, v.soh, some_byte, at_last, last_in, v.eot) refl

    dispatches :
        (w : os.World) (s : Server)
        → process_command os w s p c parsed
          ≡ (send_back_echo os w s p c >>= λ (r, s', w'). done (ret_succ, s', w'))
    unfolding process_command get_packet_cmd
    dispatches w s = rw v.cmd refl

    copies : copy_out c.recv_buf 0 c.packet_len c.send_buf ≡ done (echoed c).send_buf
    copies = copy_out-done c.recv_buf 0 c.packet_len c.send_buf (omega (arith, v.stored)) v.fits

    echoes :
        (w : os.World) (s : Server) → send_back_echo os w s p c ≡ watch_write os w s p (echoed c)
    unfolding send_back_echo
    echoes w s = rw copies refl

    -- ProcessEntirePacket of an echo packet, where malloc finds memory.
    process_entire_packet-echo :
        (w : os.World) (s : Server)
        → (os.malloc w 1).0 ≡ true
        → process_entire_packet os w s p c ≡ (
            watch_write os (os.malloc w 1).1 s p (echoed c) >>= λ (r, s', w').
            done (ret_succ, s', w'))
    unfolding process_entire_packet
    process_entire_packet-echo w s found =
        rw (found, parses, dispatches (os.malloc w 1).1 s, echoes (os.malloc w 1).1 s) refl

    -- The connection as the packet's handling leaves it.
    abbrev pub answered : ConnFd
    answered = record (echoed c) { recv_cur_len = 0; packet_len = 0 }

    -- The answer is in the send buffer, the connection is watched for writing and waits for the next
    -- packet, and its timer has started anew.
    pub record Answering (w : os.World) (s : Server) (s' : Server) (w' : os.World) : Type 0 where
      pub conn : s'.conns p ≡ some answered
      pub others : (q : ℕ) → q ≢ p → s'.conns q ≡ s.conns q
      pub queued : Half os laws p c.fd (laws.outgoing w c.fd) (packet_of c) w' answered
      pub writable : (s'.base.fd_events c.fd).mask.writable ≡ true
      pub mirrors : Mirrors os laws s'.base w'
      pub timer : Registered s.base c.timeout_event max_conn_timeout s'.base

    echoed-Half :
        (w w' : os.World)
        → laws.outgoing w' c.fd ≡ laws.outgoing w c.fd
        → Half os laws p c.fd (laws.outgoing w c.fd) (packet_of c) w' answered
    unfolding read_at
    echoed-Half w w' same = record {
      same_fd = refl;
      size = sym (length-read_at c.recv_buf.cells 0 c.packet_len);
      room = v.fits;
      bytes = kept_bytes c.recv_buf.cells c.send_buf.cells 0 c.packet_len;
      part = ground (arith, v.idle, v.some_byte);
      out =
          same
          ∙ sym (append_nil (laws.outgoing w c.fd))
          ∙ ap (λ n. laws.outgoing w c.fd ++ read_at answered.send_buf.cells 0 n) (sym v.idle);
    }

    -- The timer and the state of the connection, after the handler has watched it for writing.
    restarts :
        (w w1 : os.World) (s s1 : Server) (i : ℕ)
        → CanRestart s.base c.timeout_event i
        → Watched os laws w s p (echoed c) s1 w1
        → Returns
            (λ (s', w'). Answering w s s' w')
            (register_timer_out_event (os.realloc w1) s1.base c.timeout_event max_conn_timeout
              >>= λ (r, b). deref s1 p >>= λ c1. done (
                record (with_conn s1 p (record c1 { recv_cur_len = 0; packet_len = 0 })) {
                  base = b;
                },
                w1,
              ))
    restarts w w1 s s1 i can seen =
        let now =
          subst (λ b. CanRestart b c.timeout_event i) (sym seen.base)
            (restart_elsewhere s.base s1.base.fd_events c.timeout_event i can) in
        let start =
          subst
            (λ node.
              Returns (λ (r, b'). (r ≡ ret_succ) × Registered s1.base node max_conn_timeout b')
                (register_timer_out_event (os.realloc w1) s1.base node max_conn_timeout))
            now.slot
            (register_again (os.realloc w1) s1.base i max_conn_timeout now.valid now.clock
              now.inside now.above) in
        let live : s1.conns p ≡ some (echoed c) = ground (arith, ap (λ f. f p) seen.conns) in
        let ((r, b), e, (ok, registered)) =
          Returns-inv _
            (register_timer_out_event (os.realloc w1) s1.base c.timeout_event max_conn_timeout)
            start in
        let (cells, size) =
          Unless-returned _ _ (r, b)
            (register_timer_rest (os.realloc w1) s1.base c.timeout_event max_conn_timeout) e in
        rw (e, opens s1 p (echoed c) live)
          (record {
            conn = ground arith;
            others = λ q ne. ground (arith, ap (λ f. f q) seen.conns);
            queued = echoed-Half w w1 (seen.out c.fd);
            writable = ap (λ f. (f c.fd).mask.writable) cells ∙ seen.writable;
            mirrors = λ g lt.
                seen.mirrors g (subst (λ n. g < n) size lt)
                ∙ ap (λ f. watched (f g).mask) (sym cells);
            timer =
                registered_elsewhere s.base s1.base.fd_events c.timeout_event max_conn_timeout b (
                  subst (λ b1. Registered b1 c.timeout_event max_conn_timeout b) seen.base
                    registered);
          })

    answers_from_start :
        (w : os.World) (s s' : Server) (w' : os.World)
        → Answering (os.malloc w 1).1 s s' w'
        → Answering w s s' w'
    answers_from_start w s s' w' a = record {
      conn = a.conn;
      others = a.others;
      queued =
          subst (λ start. Half os laws p c.fd start (packet_of c) w' answered)
            (laws.malloc_writes_nothing w 1 c.fd) a.queued;
      writable = a.writable;
      mirrors = a.mirrors;
      timer = a.timer;
    }

    -- A whole echo packet, where nothing is being sent, the answer fits the send buffer, malloc
    -- finds memory, the descriptor is in the table, epoll watches what the table says, and the
    -- timer can be registered again: the process ends by exit(), or the packet's bytes stand in
    -- the send buffer, the connection is watched for writing, the next packet can come, the timer
    -- of the connection has started anew, and the other connections are as they were.
    pub finish_packet-Answering :
        (fuel : ℕ) (w : os.World) (s : Server) (i : ℕ)
        → (os.malloc w 1).0 ≡ true
        → Mirrors os laws s.base w
        → c.fd < s.base.fd_event_array_size
        → CanRestart s.base c.timeout_event i
        → Safe (λ (s', w'). Answering w s s' w') (finish_packet os fuel w s p c)
    unfolding finish_packet
    finish_packet-Answering fuel w s i found mir lt can =
        let w0 = (os.malloc w 1).1 in
        let mir0 : Mirrors os laws s.base w0 =
          λ g inside. laws.malloc_watches_nothing w 1 g ∙ mir g inside in
        rw (process_entire_packet-echo w s found) (
          Safe-bind _ _
            (watch_write os w0 s p (echoed c) >>= λ (r, s', w'). done (ret_succ, s', w')) _
            (Safe-bind _ (λ (r, s', w'). Watched os laws w0 s p (echoed c) s' w')
              (watch_write os w0 s p (echoed c)) _
              (watch_write-Watched os laws w0 s p (echoed c) mir0 lt)
              λ (r, s', w') seen. Safe-done _ _ seen)
            λ (r, s1, w1) seen. Returns-Safe _ _ (
              Returns-map _ _ _ (restarts w0 w1 s s1 i can seen)
                λ (s', w') a. answers_from_start w s s' w' a))

    -- A whole echo packet on a descriptor other than 0: however the calls of ProcessSendCallback fall
    -- afterwards, the connection is destroyed, or the bytes that were handed over since are the first
    -- ones of the packet, in order and none twice, and once nothing is waiting they are the packet.
    pub echo-Delivers :
        (fuel : ℕ) (w : os.World) (s : Server) (i : ℕ)
        → p ≢ null
        → c.fd ≢ 0
        → (os.malloc w 1).0 ≡ true
        → Mirrors os laws s.base w
        → c.fd < s.base.fd_event_array_size
        → CanRestart s.base c.timeout_event i
        → Safe
            (λ (s1, w1).
              (s2 : Server) (w2 : os.World)
              → Wakes os laws p c.fd (laws.outgoing w c.fd) (packet_of c) s1 w1 s2 w2
              → Delivers os laws p c.fd (laws.outgoing w c.fd) (packet_of c) (s2, w2))
            (finish_packet os fuel w s p c)
    echo-Delivers fuel w s i solid open_fd found mir lt can =
        Safe-weaken _ _ (finish_packet os fuel w s p c)
          (finish_packet-Answering fuel w s i found mir lt can)
          λ (s1, w1) a s2 w2 runs.
            process_send_callback-Delivers os laws p c.fd (laws.outgoing w c.fd) (packet_of c) s1 w1
              solid open_fd (inr (answered, a.conn, inl a.queued)) s2 w2 runs
