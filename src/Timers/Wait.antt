-- ===== src/Timers/Wait.antt =====
-- How long the reactor waits: until the first deadline, and not at all where it has passed.
use tcpframe.Prelude.{ℕ, ◌+◌, ◌-◌, ◌/◌}
use tcpframe.Os.{Os}

-- The wait in milliseconds up to a deadline: none where it has passed, and else the exact gap,
-- rounded up.
abbrev pub wait_ms : ℕ → ℕ → ℕ
wait_ms now deadline = (deadline - now + 999) / 1000
