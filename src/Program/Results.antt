-- ===== src/Program/Results.antt =====
-- How main() ends.
use tcpframe.Prelude.{ℕ, ◌<◌, ◌≡◌, ◌≢◌, Option, none, some}
use tcpframe.Prelude.Int.{negsuc}
use tcpframe.Prelude.Unless.{Unless}
use tcpframe.Server.{Server}
use tcpframe.Master.{Arguments, Processes, Turn, wait_error}
use tcpframe.Master.Supervision.{Children}
use tcpframe.Master.Daemon.{UnixLaws}
use tcpframe.Program.{Machine, Result}

module _ (os : Processes) (laws : Children os) (w : os.World) (n : ℕ) (some_missing : 0 < n)
    (alone : laws.children w ≡ 0) where
  -- The loop does not end on an error of wait().
  abbrev Waits : Turn os → Type 0
  Waits t = (v : os.World) → t ≢ wait_error v

-- At least one worker was asked for.
abbrev Counted : Option Arguments → Type 0
Counted none = Unit
Counted (some a) = 0 < a.worker_count

module _ (m : Machine) (laws : UnixLaws m.unix) (fuel : ℕ) where
  abbrev Failed : Result m fuel → Type 0
  Failed (code, w) = code ≡ negsuc 0
