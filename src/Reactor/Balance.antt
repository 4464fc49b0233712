-- ===== src/Reactor/Balance.antt =====
-- What __CreateNewEventBase leaves allocated, and what __DeleteEventBase frees of it.
use tcpframe.Prelude.{◌≡◌, ◌⊎◌, true, Option, none, some}
use tcpframe.Os.{Os}
use tcpframe.Reactor.{EventBase}
use tcpframe.Reactor.Blocks.{Held, nothing_held}

abbrev pub only_epoll : Held
only_epoll = record nothing_held { epoll = true }

abbrev pub everything : Held
everything = record {
  base = true;
  events = true;
  cells = true;
  cache = true;
  heap = true;
  epoll = true;
}

-- No memory is kept where there is no base, and all of it where there is one.
abbrev pub Balanced : Option EventBase → Held → Type 0
Balanced none h = (h ≡ nothing_held) ⊎ (h ≡ only_epoll)
Balanced (some b) h = h ≡ everything
