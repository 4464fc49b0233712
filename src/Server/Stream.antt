-- ===== src/Server/Stream.antt =====
-- ProcessRecvCallback over any number of its calls, and an echo packet from the stream that comes in
-- to the one that goes out.
use tcpframe.Prelude.{
  ℕ, ◌+◌, ◌-◌, ◌≤◌, ◌<◌, ◌≡◌, refl, sym, ap, subst, ◌∙◌, ◌≢◌, inl, inr, List, [], ◌∷◌, ◌++◌, Option,
  some, arith, Run, done, true,
}
use tcpframe.Prelude.Bytes.{length, length-read_at, take, read_at, get32}
use tcpframe.Prelude.Safe.{Safe}
use tcpframe.Prelude.Unless.{
  Unless, Unless-bind, Unless-done, Unless-any, Unless-weaken, Unless-returned,
}
use tcpframe.MinHeap.{null}
use tcpframe.Os.{Os, OsLaws}
use tcpframe.Reactor.Events.{Mirrors}
use tcpframe.Timers.{register_timer_out_event}
use tcpframe.Packet.{proto_eot, packet_cmd_pos}
use tcpframe.Conn.{ConnFd}
use tcpframe.Server.Defs.{Server, deref, max_conn_timeout}
use tcpframe.Server.Packets.{cmd_test_echo, process_entire_packet}
use tcpframe.Server.Io.{finish_packet, process_recv_callback}
use tcpframe.Server.Sending.{Delivers, destroy_conn-frees}
use tcpframe.Server.Wakes.{Wakes}
use tcpframe.Server.Watch.{CanRestart}
use tcpframe.Server.Echo.{IsEchoRequest, packet_of, echo-Delivers}
use tcpframe.Server.Collect.{Coming, Arrived, Collects}
use tcpframe.Server.Arrive.{process_recv_callback-Collects}

-- Where a packet was handled, the connection waits for the next one.
finish_packet-resets :
    (os : Os) (fuel : ℕ) (w : os.World) (s : Server) (p : ℕ) (c : ConnFd)
    → Unless
        (λ (s', w'). (c' : ConnFd) × (s'.conns p ≡ some c') × (c'.recv_cur_len ≡ 0))
        (finish_packet os fuel w s p c)
unfolding finish_packet
finish_packet-resets os fuel w s p c =
    Unless-bind _ _ (process_entire_packet os w s p c) _ (Unless-any _) λ (r, s1, w1) u.
      Unless-bind _ _
        (register_timer_out_event (os.realloc w1) s1.base c.timeout_event max_conn_timeout) _
        (Unless-any _)
        λ (r2, b) v. Unless-bind _ _ (deref s1 p) _ (Unless-any _) λ c1 x.
          Unless-done _ _ (record c1 { recv_cur_len = 0; packet_len = 0 }, ground arith, refl)

module _ (os : Os) (laws : OsLaws os) (fd : ℕ) (stream : List ℕ) (p : ℕ) where
  -- The calls of ProcessRecvCallback that return with a part of the packet, with other work of the
  -- process between them, which leaves the connection and what its descriptor has to read.
  pub data Reads (s : Server) (w : os.World) : Server → os.World → Type 0 where
    starts : Reads s w s w
    meanwhile :
        {s1 : Server} {w1 : os.World} (s2 : Server) (w2 : os.World)
        → Reads s w s1 w1
        → s2.conns p ≡ s1.conns p
        → laws.incoming w2 fd ≡ laws.incoming w1 fd
        → Reads s w s2 w2
    reads :
        {s1 : Server} {w1 : os.World} (s2 : Server) (w2 : os.World) (k : ℕ) (c2 : ConnFd)
        → Reads s w s1 w1
        → laws.signals w1 + 4096 < k
        → process_recv_callback os k w1 s1 p ≡ done (s2, w2)
        → s2.conns p ≡ some c2
        → 0 < c2.recv_cur_len
        → Reads s w s2 w2

  -- The connection is there, and its packet is still coming in.
  abbrev pub Open : Server × os.World → Type 0
  Open (s, w) = (c : ConnFd) × (s.conns p ≡ some c) × Coming os laws fd stream w c

  -- If the connection is there and has bytes, its packet is still coming in.
  abbrev StaysOpen : Server × os.World → Type 0
  StaysOpen (s, w) =
      (c : ConnFd) → s.conns p ≡ some c → 0 < c.recv_cur_len → Coming os laws fd stream w c

  same_conn : {c c' : ConnFd} → ◌≡◌ {A = Option ConnFd} (some c) (some c') → c ≡ c'
  same_conn e = cc

  collected-StaysOpen :
      (k : ℕ) (s : Server) (n : ℕ) (r : Run (Server × os.World))
      → Collects os laws fd stream k s p n r
      → Unless StaysOpen r
  collected-StaysOpen k s n r (inl (w', s', same, e)) = rw e (
      Unless-weaken _ _ _ (destroy_conn-frees os w' s' p)
        λ (s2, w2) gone c live some_byte. absurd (ground (arith, gone, live)))
  collected-StaysOpen k s n r (inr (inl (w', s', c', same, live, more, coming, e))) = rw e (
      Unless-done _ _ λ c live' some_byte.
        subst (Coming os laws fd stream w') (same_conn (sym live ∙ live')) coming)
  collected-StaysOpen k s n r (inr (inr (w', s', c', same, live, arrived, e))) = rw e (
      Unless-weaken _ _ _ (finish_packet-resets os k w' s' p c')
        λ (s2, w2) (c2, live2, empty) c live' some_byte. absurd (
          omega
            (arith, empty, some_byte, ap (λ x. x.recv_cur_len) (same_conn (sym live2 ∙ live')))))

  moved_on :
      (w w' : os.World) (c : ConnFd)
      → laws.incoming w' fd ≡ laws.incoming w fd
      → Coming os laws fd stream w c
      → Coming os laws fd stream w' c
  moved_on w w' c same (t, phase) = (
    record {
      same_fd = t.same_fd;
      sound = t.sound;
      bytes = t.bytes ∙ ap (λ x. read_at c.recv_buf.cells 0 c.recv_cur_len ++ x) (sym same);
    },
    phase,
  )

  Reads-Open :
      (s : Server) (w : os.World)
      → p ≢ null
      → Open (s, w)
      → (s' : Server) (w' : os.World) → Reads s w s' w'
      → Open (s', w')
  Reads-Open s w solid at s' w' starts = at
  Reads-Open s w solid at s' w' (meanwhile {s1} {w1} s2 w2 runs same quiet) =
      let (c, live, coming) = Reads-Open s w solid at s1 w1 runs in
      (c, same ∙ live, moved_on w1 w2 c quiet coming)
  Reads-Open s w solid at s' w' (reads {s1} {w1} s2 w2 k c2 runs enough e live2 some_byte) =
      let (c, live, coming) = Reads-Open s w solid at s1 w1 runs in
      (
        c2,
        live2,
        Unless-returned StaysOpen (process_recv_callback os k w1 s1 p) (s2, w2)
            (collected-StaysOpen k s1 c.recv_cur_len (process_recv_callback os k w1 s1 p) (
              process_recv_callback-Collects os laws fd stream k w1 s1 p c solid live coming
                enough))
            e c2 live2 some_byte,
      )

  -- From a connection whose packet is coming in, or has not begun, at a pointer that is not NULL,
  -- and however the stream comes in: after any number of calls of ProcessRecvCallback that return
  -- with a part of the packet, the bytes in the buffer and those that are still to be read are
  -- the stream, and the next call destroys the connection, or adds bytes of the packet, or comes
  -- exactly to the packet's end, which its header says, and handles it, with nothing read behind
  -- that end. Enough rounds for each call are 4096 and the signals that may interrupt.
  pub process_recv_callback-Streams :
      (s : Server) (w : os.World)
      → p ≢ null
      → Open (s, w)
      → (s' : Server) (w' : os.World) → Reads s w s' w'
      → (c : ConnFd) × (s'.conns p ≡ some c)
        × Coming os laws fd stream w' c
        × ((k : ℕ)
            → laws.signals w' + 4096 < k
            → Collects os laws fd stream k s' p c.recv_cur_len (process_recv_callback os k w' s' p))
  process_recv_callback-Streams s w solid at s' w' runs =
      let (c, live, coming) = Reads-Open s w solid at s' w' runs in
      (
        c,
        live,
        coming,
        λ k enough.
            process_recv_callback-Collects os laws fd stream k w' s' p c solid live coming enough,
      )

  take-append : (xs ys : List ℕ) → take (length xs) (xs ++ ys) ≡ xs
  take-append [] ys = refl
  take-append (x ∷ xs) ys = ap (◌∷◌ x) (take-append xs ys)

  -- The bytes of a packet that has arrived are the first ones of the stream.
  packet-first :
      (w : os.World) (c : ConnFd)
      → Arrived os laws fd stream w c
      → read_at c.recv_buf.cells 0 c.packet_len ≡ take c.packet_len stream
  packet-first w c (t, head, whole) =
      let bytes = read_at c.recv_buf.cells 0 c.packet_len in
      let size : length bytes ≡ c.packet_len = length-read_at c.recv_buf.cells 0 c.packet_len in
      let all : stream ≡ bytes ++ laws.incoming w fd =
        t.bytes ∙ ap (λ n. read_at c.recv_buf.cells 0 n ++ laws.incoming w fd) whole in
      sym (
        ap (take c.packet_len) all
        ∙ ap (λ n. take n (bytes ++ laws.incoming w fd)) (sym size)
        ∙ take-append bytes (laws.incoming w fd))

  -- An echo packet that has come to its end, with the byte EOT as its last, on a connection whose
  -- pointer is not NULL and whose descriptor is in the table and not 0, where nothing is being
  -- sent, the answer fits the send buffer, malloc finds memory, epoll watches what the table
  -- says, and the timer can be registered again: the process ends by exit(), or the handling of
  -- the packet returns, and then, however the calls of ProcessSendCallback fall, the connection
  -- is destroyed, or the bytes that were handed over since are the first ones of the packet's
  -- bytes of the stream that came in, in order, none twice, and all of them once nothing is
  -- waiting.
  pub echo_round_trip :
      (fuel : ℕ) (w : os.World) (s : Server) (c : ConnFd) (i : ℕ)
      → p ≢ null
      → fd ≢ 0
      → Arrived os laws fd stream w c
      → c.recv_buf.cells (c.packet_len - 1) ≡ proto_eot
      → get32 c.recv_buf.cells packet_cmd_pos ≡ cmd_test_echo
      → c.packet_len ≤ c.send_buf.total
      → c.send_cur_len ≡ 0
      → (os.malloc w 1).0 ≡ true
      → Mirrors os laws s.base w
      → fd < s.base.fd_event_array_size
      → CanRestart s.base c.timeout_event i
      → Safe
          (λ (s1, w1).
            (s2 : Server) (w2 : os.World)
            → Wakes os laws p fd (laws.outgoing w fd) (take c.packet_len stream) s1 w1 s2 w2
            → Delivers os laws p fd (laws.outgoing w fd) (take c.packet_len stream) (s2, w2))
          (finish_packet os fuel w s p c)
  echo_round_trip fuel w s c i solid open_fd (t, head, whole) eot cmd fits idle found mir lt can =
      let asked : IsEchoRequest c = record {
        whole = whole;
        some_byte = omega (arith, head.bounds.0);
        stored = head.room;
        soh = head.soh;
        eot = eot;
        cmd = cmd;
        fits = fits;
        idle = idle;
      } in
      let same = t.same_fd in
      subst
        (λ packet.
          Safe
            (λ (s1, w1).
              (s2 : Server) (w2 : os.World)
              → Wakes os laws p fd (laws.outgoing w fd) packet s1 w1 s2 w2
              → Delivers os laws p fd (laws.outgoing w fd) packet (s2, w2))
            (finish_packet os fuel w s p c))
        (packet-first w c (t, head, whole))
        (subst
          (λ g.
            Safe
              (λ (s1, w1).
                (s2 : Server) (w2 : os.World)
                → Wakes os laws p g (laws.outgoing w g) (packet_of c) s1 w1 s2 w2
                → Delivers os laws p g (laws.outgoing w g) (packet_of c) (s2, w2))
              (finish_packet os fuel w s p c))
          same
          (echo-Delivers os laws p c asked fuel w s i solid (λ z. open_fd (sym same ∙ z)) found mir
            (omega (arith, lt, same)) can))
