-- ===== src/Client/Latency.antt =====
-- CompareLatency against the order of the latencies.
use tcpframe.Prelude.{ℕ, ◌+◌, ◌-◌, ◌≤◌, ◌<◌, ◌≡◌, arith}
use tcpframe.Prelude.Int.{negsuc, sub_ℕ}
use tcpframe.Client.Types.{compare_latency}

-- CompareLatency is the difference of two latencies that differ by less than 2 ^ 31 microseconds, so
-- that its sign is their order.
pub compare_latency-sub_ℕ :
    (a b : ℕ)
    → a < b + 2147483648
    → b < a + 2147483648
    → a < 18446744073709551616
    → b < 18446744073709551616
    → compare_latency a b ≡ sub_ℕ a b
unfolding compare_latency
compare_latency-sub_ℕ a b above below fits_a fits_b = ground arith

-- At 2 ^ 31 microseconds the order is turned round.
pub compare_latency-wraps :
    (b n : ℕ)
    → 2147483648 ≤ n
    → n < 4294967296
    → b + n < 18446744073709551616
    → compare_latency (b + n) b ≡ negsuc (4294967295 - n)
unfolding compare_latency
compare_latency-wraps b n big small fits = ground arith
