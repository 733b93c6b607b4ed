-- ===== src/Impair/Rate/Tests.antt =====
-- Transmit times at concrete sizes and rates.
use quixiot.Prelude.{◌≡◌, refl}
use quixiot.Prelude.Int.{pos, negsuc}
use quixiot.Impair.Rate.{transmit_duration}

-- 1200 bytes at 550,000 bytes per second; no bytes; no limit; and a size at which the product
-- overflows an int64.
transmit_runs :
    (transmit_duration 1200 (pos 550000) ≡ pos 2181819)
    × (transmit_duration 0 (pos 550000) ≡ pos 0)
    × (transmit_duration 1200 (pos 0) ≡ pos 0)
    × (transmit_duration 10000000000 (pos 1) ≡ negsuc 8446744073709551615)
unfolding transmit_duration
transmit_runs = (refl, refl, refl, refl)
