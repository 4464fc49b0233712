-- ===== src/Time.antt =====
-- include/min_heap.h: struct timeval and the macros minheap_timercmp, minheap_timeradd and
-- minheap_timersub. Times count from the epoch, so both fields are natural numbers.
pub mod Laws
use tcpframe.Prelude.{ℕ, ◌+◌, ◌-◌, Bool, ltb, leb, ◌==◌, if◌then◌else◌}
use tcpframe.Prelude.Int.{ℤ, pos, negsuc, sub_ℕ, ltb_ℤ, ◌+ℤ◌}

pub record Timeval : Type 0 where
  pub sec : ℕ
  pub usec : ℕ

-- minheap_timercmp(a, b, >)
unfoldable pub timercmp_gt : Timeval → Timeval → Bool
timercmp_gt a b = if a.sec == b.sec then ltb b.usec a.usec else ltb b.sec a.sec

-- minheap_timercmp(a, b, <=)
unfoldable pub timercmp_le : Timeval → Timeval → Bool
timercmp_le a b = if a.sec == b.sec then leb a.usec b.usec else leb a.sec b.sec

unfoldable pub timeradd : Timeval → Timeval → Timeval
timeradd a b =
    let sec = a.sec + b.sec in
    let usec = a.usec + b.usec in
    if leb 1000000 usec
    then record { sec = sec + 1; usec = usec - 1000000 }
    else record { sec = sec; usec = usec }

-- A difference of two times may be negative.
pub record TimeDiff : Type 0 where
  pub sec : ℤ
  pub usec : ℤ

unfoldable pub timersub : Timeval → Timeval → TimeDiff
timersub a b =
    let sec = sub_ℕ a.sec b.sec in
    let usec = sub_ℕ a.usec b.usec in
    if ltb_ℤ usec (pos 0)
    then record { sec = sec +ℤ negsuc 0; usec = usec +ℤ pos 1000000 }
    else record { sec = sec; usec = usec }
