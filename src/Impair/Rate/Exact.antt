-- ===== src/Impair/Rate/Exact.antt =====
-- `transmitDuration` rounds the exact time up.
use native.Mathlib.Nat.{div-add-mod, mod-lt}
use quixiot.Prelude.{ℕ, ◌+◌, ◌-◌, ◌*◌, ◌/◌, ◌^◌, ◌≤◌, ◌<◌, ◌≡◌, arith, false, ◌==◌}
use quixiot.Prelude.Int.{pos, ◌+ℤ◌, ◌-ℤ◌}
use quixiot.Impair.Rate.{second, wrap64, at_least_one, transmit_duration}

wrap64-pos : (n : ℕ) → n < 2 ^ 63 → wrap64 (pos n) ≡ pos n
unfolding wrap64
wrap64-pos n h = ground arith

round_up :
    (n r : ℕ)
    → 0 < r
    → 0 < n
    → (n ≤ (n + r - 1) / r * r) × ((n + r - 1) / r * r < n + r) × (0 < (n + r - 1) / r)
round_up n r h k = grind (arith, div-add-mod, mod-lt)

at_least_one-pos : (n : ℕ) → 0 < n → at_least_one (pos n) ≡ pos n
unfolding at_least_one
at_least_one-pos n h = ground arith

transmit_duration-rounded :
    (size rate : ℕ)
    → 0 < size
    → 0 < rate
    → size * second + rate < 2 ^ 63
    → transmit_duration size (pos rate) ≡ pos ((size * second + rate - 1) / rate)
unfolding transmit_duration
transmit_duration-rounded size rate s r h =
    let n = size * second in
    let e1 : wrap64 (pos n) ≡ pos n = wrap64-pos n (omega arith) in
    let e2 : wrap64 (pos (n + rate - 1)) ≡ pos (n + rate - 1) =
      wrap64-pos (n + rate - 1) (omega arith) in
    let e3 : pos n +ℤ pos rate -ℤ pos 1 ≡ pos (n + rate - 1) = ground arith in
    let up = round_up n rate r (omega arith) in
    let z1 : (size == 0) ≡ false = ground arith in
    let z2 : (rate == 0) ≡ false = ground arith in
    rw (z1, z2) (rw e1 (rw e3 (rw e2 (at_least_one-pos _ up.2))))

-- `transmitDuration` of some bytes at a positive rate, where the arithmetic stays below 2^63, is the
-- least whole number of nanoseconds in which the rate carries the bytes, and at least 1.
pub transmit_duration_exact :
    (size rate : ℕ)
    → 0 < size
    → 0 < rate
    → size * second + rate < 2 ^ 63
    → (d : ℕ) × (transmit_duration size (pos rate) ≡ pos d)
      × (0 < d)
      × (size * second ≤ d * rate)
      × (d * rate < size * second + rate)
transmit_duration_exact size rate s r h =
    let (low, high, one) = round_up (size * second) rate r (omega arith) in
    ((size * second + rate - 1) / rate, transmit_duration-rounded size rate s r h, one, low, high)
