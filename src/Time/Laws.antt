-- ===== src/Time/Laws.antt =====
-- The comparison macros are the order of the instants, and the arithmetic macros are exact.
use tcpframe.Prelude.{ℕ, ◌+◌, ◌-◌, ◌*◌, ◌/◌, ◌%◌, ◌≤◌, ◌<◌, ◌≡◌, arith, ltb, leb}
use tcpframe.Prelude.Int.{pos}
use tcpframe.Time.{Timeval, TimeDiff, timercmp_gt, timercmp_le, timeradd, timersub}

-- The instant in microseconds.
abbrev pub usecs : Timeval → ℕ
usecs t = t.sec * 1000000 + t.usec

-- Fewer than a million microseconds, as gettimeofday fills it in.
abbrev pub IsNormal : Timeval → Type 0
IsNormal t = t.usec < 1000000

pub timercmp_gt-ltb :
    (a b : Timeval) → IsNormal a → IsNormal b → timercmp_gt a b ≡ ltb (usecs b) (usecs a)
unfolding timercmp_gt
timercmp_gt-ltb a b p q = ground arith

pub timercmp_le-leb :
    (a b : Timeval) → IsNormal a → IsNormal b → timercmp_le a b ≡ leb (usecs a) (usecs b)
unfolding timercmp_le
timercmp_le-leb a b p q = ground arith

pub usecs-timeradd : (a b : Timeval) → usecs (timeradd a b) ≡ usecs a + usecs b
unfolding timeradd
usecs-timeradd a b = ground arith

pub timeradd-IsNormal : (a b : Timeval) → IsNormal a → IsNormal b → IsNormal (timeradd a b)
unfolding timeradd
timeradd-IsNormal a b p q = ground arith

-- The macros agree with the order of instants, and `timeradd` with their sum.
pub time_macros :
    (a b : Timeval)
    → IsNormal a
    → IsNormal b
    → (timercmp_gt a b ≡ ltb (usecs b) (usecs a))
      × (timercmp_le a b ≡ leb (usecs a) (usecs b))
      × (usecs (timeradd a b) ≡ usecs a + usecs b)
      × IsNormal (timeradd a b)
time_macros a b p q = (
  timercmp_gt-ltb a b p q,
  timercmp_le-leb a b p q,
  usecs-timeradd a b,
  timeradd-IsNormal a b p q,
)

-- What is left until `a`, seen from an instant `b` that is not later: two numbers, whose sum in
-- microseconds is the exact difference.
pub record IsGap (a b : Timeval) (d : TimeDiff) : Type 0 where
  pub seconds : ℕ
  pub micros : ℕ
  pub sec_eq : d.sec ≡ pos seconds
  pub usec_eq : d.usec ≡ pos micros
  pub normal : micros < 1000000
  pub exact : seconds * 1000000 + micros + usecs b ≡ usecs a

-- The difference of two instants, the second not later than the first, is exact and normal: its
-- numbers are not negative, and its microseconds are fewer than a million.
pub timersub-IsGap :
    (a b : Timeval) → IsNormal a → IsNormal b → usecs b ≤ usecs a → IsGap a b (timersub a b)
unfolding timersub
timersub-IsGap a b p q h = record {
  seconds = (usecs a - usecs b) / 1000000;
  micros = (usecs a - usecs b) % 1000000;
  sec_eq = ground arith;
  usec_eq = ground arith;
  normal = omega arith;
  exact = omega arith;
}
