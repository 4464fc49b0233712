-- ===== src/Os.antt =====
-- What the framework takes from the operating system: sockets, epoll, the clock and memory. None of
-- it is implemented here: the calls are fields of a record over a state of the world, and `OsLaws`
-- states the documented behaviour that the theorems rely on.
use tcpframe.Prelude.{
  ℕ, ◌≤◌, ◌<◌, ◌≡◌, Bool, true, false, ◌||◌, ◌&&◌, not, Option, none, some, List, ◌++◌, ◌==◌,
  if◌then◌else◌,
}
use tcpframe.Prelude.Bytes.{length, take}
use tcpframe.Time.{Timeval}
use tcpframe.Time.Laws.{IsNormal}

-- EVENT_WRITABLE (1) and EVENT_READABLE (2) of include/comm.h, as the set of the bits of an int;
-- the same set stands for EPOLLOUT and EPOLLIN. The bit EVENT_OTHER is used nowhere.
pub record Mask : Type 0 where
  pub writable : Bool
  pub readable : Bool

abbrev pub event_none : Mask
event_none = record { writable = false; readable = false }

abbrev pub event_writable : Mask
event_writable = record { writable = true; readable = false }

abbrev pub event_readable : Mask
event_readable = record { writable = false; readable = true }

abbrev pub event_both : Mask
event_both = record { writable = true; readable = true }

-- a & b as a truth value, a | b, and a & ~b
abbrev pub overlaps : Mask → Mask → Bool
overlaps a b = (a.writable && b.writable) || (a.readable && b.readable)

abbrev pub union : Mask → Mask → Mask
union a b = record { writable = a.writable || b.writable; readable = a.readable || b.readable }

abbrev pub without : Mask → Mask → Mask
without a b = record {
  writable = a.writable && not b.writable;
  readable = a.readable && not b.readable;
}

abbrev pub is_none : Mask → Bool
is_none a = not (a.writable || a.readable)

-- The second argument of epoll_ctl.
pub data CtlOp : Type 0 where
  ctl_add ctl_mod ctl_del : CtlOp

-- What read() and write() report: bytes moved, the end of the stream, or the errno that the code
-- tells apart (EAGAIN and EWOULDBLOCK, EINTR, any other).
pub data ReadResult : Type 0 where
  got : List ℕ → ReadResult
  closed read_again read_interrupted read_failed : ReadResult

abbrev pub moves_nothing : ReadResult → Bool
moves_nothing (got bs) = false
moves_nothing _ = true

pub data WriteResult : Type 0 where
  wrote : ℕ → WriteResult
  write_again write_interrupted write_failed : WriteResult

abbrev pub sends_nothing : WriteResult → Bool
sends_nothing (wrote n) = false
sends_nothing _ = true

pub data AcceptResult : Type 0 where
  accepted : ℕ → AcceptResult
  accept_again accept_interrupted accept_failed : AcceptResult

-- connect() on a socket that does not block.
pub data ConnectResult : Type 0 where
  connected in_progress connect_failed : ConnectResult

-- The first two arguments of socket(): a stream or datagrams.
pub data Protocol : Type 0 where
  tcp udp : Protocol

-- The options that the code sets.
pub data SockOpt : Type 0 where
  reuse_addr keep_alive no_delay : SockOpt
  send_buffer : ℕ → SockOpt

-- The values of errno that the code tells apart.
pub data Errno : Type 0 where
  eintr eagain other_error : Errno

pub record Os : Type 1 where
  pub World : Type 0
  pub read : World → ℕ → ℕ → ReadResult × World
  pub write : World → ℕ → List ℕ → WriteResult × World
  pub accept : World → ℕ → AcceptResult × World
  pub set_nonblock : World → ℕ → Bool × World
  pub close : World → ℕ → World
  pub epoll_create : World → Option ℕ × World
  pub epoll_ctl : World → CtlOp → ℕ → Mask → Bool × World
  pub gettimeofday : World → Timeval × World
  pub malloc : World → ℕ → Bool × World
  pub realloc : World → ℕ → Bool
  pub getpid : World → ℕ
  -- errno as the last failing call has left it
  pub errno : World → Errno
  pub socket : World → Protocol → Option ℕ × World
  pub connect : World → ℕ → ℕ → ℕ → ConnectResult × World
  pub setsockopt : World → ℕ → SockOpt → Bool × World
  -- the pending error of a socket, 0 for none; `none` where getsockopt fails
  pub so_error : World → ℕ → Option ℕ × World
  pub bind : World → ℕ → ℕ → ℕ → Bool × World
  pub listen : World → ℕ → Bool × World
  -- an address in dotted form; `none` for INADDR_NONE
  pub inet_addr : List ℕ → Option ℕ

-- What epoll remembers of a descriptor after a successful call.
abbrev pub after_ctl : CtlOp → Mask → Option Mask
after_ctl ctl_add m = some m
after_ctl ctl_mod m = some m
after_ctl ctl_del m = none

pub record OsLaws (os : Os) : Type 0 where
  -- What epoll watches of a descriptor: epoll_ctl sets it where it succeeds, and a call that fails
  -- leaves it.
  pub interest : os.World → ℕ → Option Mask
  pub ctl_sets :
      (w : os.World) (op : CtlOp) (fd : ℕ) (m : Mask) (w' : os.World)
      → os.epoll_ctl w op fd m ≡ (true, w')
      → (g : ℕ) → interest w' g ≡ (if fd == g then after_ctl op m else interest w g)
  pub ctl_leaves :
      (w : os.World) (op : CtlOp) (fd : ℕ) (m : Mask) (w' : os.World)
      → os.epoll_ctl w op fd m ≡ (false, w')
      → (g : ℕ) → interest w' g ≡ interest w g
  pub malloc_watches_nothing :
      (w : os.World) (n g : ℕ) → interest (os.malloc w n).1 g ≡ interest w g
  -- The bytes that were handed to a descriptor. Neither epoll_ctl nor malloc writes any. A write of
  -- at least one byte takes at least one, and at most all, from the front.
  pub outgoing : os.World → ℕ → List ℕ
  pub ctl_writes_nothing :
      (w : os.World) (op : CtlOp) (fd : ℕ) (m : Mask) (g : ℕ)
      → outgoing (os.epoll_ctl w op fd m).1 g ≡ outgoing w g
  pub malloc_writes_nothing : (w : os.World) (n g : ℕ) → outgoing (os.malloc w n).1 g ≡ outgoing w g
  -- The bytes that are still to be read from a descriptor. A read takes at least one and at most as
  -- many as asked for, from the front.
  pub incoming : os.World → ℕ → List ℕ
  pub malloc_reads_nothing : (w : os.World) (n g : ℕ) → incoming (os.malloc w n).1 g ≡ incoming w g
  pub read_takes :
      (w : os.World) (fd n : ℕ) (bs : List ℕ) (w' : os.World)
      → os.read w fd n ≡ (got bs, w')
      → (0 < length bs) × (length bs ≤ n) × (incoming w fd ≡ bs ++ incoming w' fd)
  pub read_nothing :
      (w : os.World) (fd n : ℕ) (r : ReadResult) (w' : os.World)
      → os.read w fd n ≡ (r, w')
      → moves_nothing r ≡ true
      → incoming w' fd ≡ incoming w fd
  -- Signals interrupt the reads only finitely often.
  pub signals : os.World → ℕ
  pub read_interrupts :
      (w : os.World) (fd n : ℕ) (w' : os.World)
      → os.read w fd n ≡ (read_interrupted, w')
      → signals w' < signals w
  pub read_keeps_signals :
      (w : os.World) (fd n : ℕ) (r : ReadResult) (w' : os.World)
      → os.read w fd n ≡ (r, w')
      → signals w' ≤ signals w
  pub malloc_keeps_signals : (w : os.World) (n : ℕ) → signals (os.malloc w n).1 ≡ signals w
  pub clock_normal : (w : os.World) → IsNormal (os.gettimeofday w).0
  pub write_takes :
      (w : os.World) (fd : ℕ) (bs : List ℕ) (n : ℕ) (w' : os.World)
      → os.write w fd bs ≡ (wrote n, w')
      → 0 < length bs
      → (0 < n) × (n ≤ length bs) × (outgoing w' fd ≡ outgoing w fd ++ take n bs)
  pub write_nothing :
      (w : os.World) (fd : ℕ) (bs : List ℕ) (r : WriteResult) (w' : os.World)
      → os.write w fd bs ≡ (r, w')
      → sends_nothing r ≡ true
      → outgoing w' fd ≡ outgoing w fd
  pub write_interrupts :
      (w : os.World) (fd : ℕ) (bs : List ℕ) (w' : os.World)
      → os.write w fd bs ≡ (write_interrupted, w')
      → signals w' < signals w
  pub write_keeps_signals :
      (w : os.World) (fd : ℕ) (bs : List ℕ) (n : ℕ) (w' : os.World)
      → os.write w fd bs ≡ (wrote n, w')
      → signals w' ≤ signals w
