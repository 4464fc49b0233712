-- ===== src/Server/Wakes.antt =====
-- ProcessSendCallback over any number of its calls.
use tcpframe.Prelude.{ℕ, ◌+◌, ◌<◌, ◌≡◌, ◌∙◌, ◌≢◌, ◌⊎◌, inl, inr, List, done}
use tcpframe.Prelude.Bytes.{length}
use tcpframe.Prelude.Unless.{Unless-returned}
use tcpframe.MinHeap.{null}
use tcpframe.Os.{Os, OsLaws}
use tcpframe.Conn.{ConnFd}
use tcpframe.Server.Defs.{Server}
use tcpframe.Server.Io.{process_send_callback}
use tcpframe.Server.Sending.{Half, Whole, Delivers, Half-turn, Whole-turn, gone-turn}

module _ (os : Os) (laws : OsLaws os) (p fd : ℕ) (start packet : List ℕ) where
  -- The calls of ProcessSendCallback for the connection that return, with other work of the process
  -- between them, which leaves the connection and what its descriptor was given.
  pub data Wakes (s : Server) (w : os.World) : Server → os.World → Type 0 where
    start_here : Wakes s w s w
    elsewhere :
        {s1 : Server} {w1 : os.World} (s2 : Server) (w2 : os.World)
        → Wakes s w s1 w1
        → s2.conns p ≡ s1.conns p
        → laws.outgoing w2 fd ≡ laws.outgoing w1 fd
        → Wakes s w s2 w2
    wake :
        {s1 : Server} {w1 : os.World} (s2 : Server) (w2 : os.World) (k : ℕ)
        → Wakes s w s1 w1
        → laws.signals w1 + length packet < k
        → process_send_callback os k w1 s1 p ≡ done (s2, w2)
        → Wakes s w s2 w2

  moved_world :
      (w w' : os.World) (c : ConnFd)
      → laws.outgoing w' fd ≡ laws.outgoing w fd
      → Half os laws p fd start packet w c ⊎ Whole os laws p fd start packet w c
      → Half os laws p fd start packet w' c ⊎ Whole os laws p fd start packet w' c
  moved_world w w' c same (inl half) = inl (record {
    same_fd = half.same_fd;
    size = half.size;
    room = half.room;
    bytes = half.bytes;
    part = half.part;
    out = same ∙ half.out;
  })
  moved_world w w' c same (inr whole) =
      inr (record { same_fd = whole.same_fd; nothing = whole.nothing; out = same ∙ whole.out })

  -- From a connection with a packet in its send buffer of which a part was handed over, or the
  -- whole, at a pointer that is not NULL and on a descriptor other than 0: however the calls of
  -- ProcessSendCallback fall, where each has more rounds than the packet has bytes and signals
  -- may interrupt, the connection is destroyed, or the bytes handed over are the first ones of
  -- the packet, in order and none twice, and the connection has counted them; once nothing is
  -- waiting they are the whole packet.
  pub process_send_callback-Delivers :
      (s : Server) (w : os.World)
      → p ≢ null
      → fd ≢ 0
      → Delivers os laws p fd start packet (s, w)
      → (s' : Server) (w' : os.World) → Wakes s w s' w'
      → Delivers os laws p fd start packet (s', w')
  process_send_callback-Delivers s w solid open_fd at s' w' start_here = at
  process_send_callback-Delivers s w solid open_fd at s' w'
        (elsewhere {s1} {w1} s2 w2 runs same out) =
      elim (process_send_callback-Delivers s w solid open_fd at s1 w1 runs) [
        | inl gone ↦ inl (same ∙ gone)
        | inr (c, live, state) ↦ inr (c, same ∙ live, moved_world w1 w2 c out state)
      ]
  process_send_callback-Delivers s w solid open_fd at s' w' (wake {s1} {w1} s2 w2 k runs enough e) =
      Unless-returned (Delivers os laws p fd start packet) (process_send_callback os k w1 s1 p)
        (s2, w2)
        (elim (process_send_callback-Delivers s w solid open_fd at s1 w1 runs) [
          | inl gone ↦ gone-turn os laws p fd start packet k w1 s1 solid gone
          | inr (c, live, inl half) ↦
              Half-turn os laws p fd start packet k w1 s1 c solid open_fd live half enough
          | inr (c, live, inr whole) ↦
              Whole-turn os laws p fd start packet k w1 s1 c solid live whole
        ])
        e
