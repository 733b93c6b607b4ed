-- ===== src/Impair/Rate.antt =====
-- internal/impair/pipeline.go: `transmitDuration`, in the int64 arithmetic of Go.
pub mod Exact
mod Tests
use quixiot.Prelude.{
  ℕ, suc, ◌+◌, ◌-◌, ◌*◌, ◌/◌, ◌%◌, ◌^◌, Bool, true, false, ◌||◌, ◌==◌, ltb, if◌then◌else◌,
}
use quixiot.Prelude.Int.{ℤ, pos, negsuc, sub_ℕ, ◌+ℤ◌, ◌-ℤ◌, leb_ℤ}

-- `time.Second`, in nanoseconds.
abbrev pub second : ℕ
second = 1000000000

-- The int64 that a bit pattern below 2^64 stands for.
abbrev signed : ℕ → ℤ
signed n = if ltb n (2 ^ 63) then pos n else negsuc (2 ^ 64 - 1 - n)

-- An integer wrapped to an int64.
wrap64 : ℤ → ℤ
wrap64 (pos n) = signed (n % 2 ^ 64)
wrap64 (negsuc n) = signed (2 ^ 64 - 1 - n % 2 ^ 64)

-- Go's division by a positive number, which truncates towards 0.
quotient : ℤ → ℕ → ℤ
quotient (pos n) d = pos (n / d)
quotient (negsuc n) d = sub_ℕ 0 (suc n / d)

at_least_one : ℤ → ℤ
at_least_one (pos n) = if n == 0 then pos 1 else pos n
at_least_one (negsuc n) = negsuc n

-- The time that `size` bytes, a length and so below 2^63, take at a rate.
unfoldable pub transmit_duration : ℕ → ℤ → ℤ
unfolding wrap64 quotient at_least_one ◌+ℤ◌ ◌-ℤ◌
transmit_duration size (negsuc _) = pos 0
transmit_duration size (pos rate) =
    if size == 0 || rate == 0
    then pos 0
    else at_least_one (quotient (wrap64 (wrap64 (pos (size * second)) +ℤ pos rate -ℤ pos 1)) rate)
