-- ===== src/Impair/Profiles.antt =====
-- internal/impair/profiles.go: the shipped profiles. Each has one configuration for both directions.
pub mod Shipped
mod Tests
use quixiot.Prelude.Strings.{codes, same_bytes}
use quixiot.Prelude.{
  ℕ, ◌*◌, Bytes, [], ◌∷◌, Option, none, some, Bool, true, false, ◌==◌, ◌&&◌, if◌then◌else◌, List,
}
use quixiot.Prelude.Int.{ℤ, pos}
use quixiot.Impair.Config.{Profile, DirectionConfig, scaled, passthrough_profile}

-- `time.Millisecond`, in nanoseconds.
abbrev pub millisecond : ℕ
millisecond = 1000000

abbrev both_ways : Bytes → ℕ → DirectionConfig → Profile
both_ways name seed c = record { name = name; seed = pos seed; to_server = c; to_client = c }

-- Probabilities 0.002, 0 and 0.001.
abbrev pub wifi_good : Profile
wifi_good = both_ways (codes "wifi-good") 1001 (record {
  drop_probability = scaled (pos 18014398509482);
  duplicate_probability = scaled (pos 0);
  reorder_probability = scaled (pos 9007199254741);
  reorder_hold = pos (2 * millisecond);
  latency = pos (8 * millisecond);
  jitter = pos (3 * millisecond);
  bandwidth_bytes_per_sec = pos 10000000;
})

-- Probabilities 0.01, 0.001 and 0.01.
abbrev pub cellular_lte : Profile
cellular_lte = both_ways (codes "cellular-lte") 2002 (record {
  drop_probability = scaled (pos 90071992547410);
  duplicate_probability = scaled (pos 9007199254741);
  reorder_probability = scaled (pos 90071992547410);
  reorder_hold = pos (5 * millisecond);
  latency = pos (35 * millisecond);
  jitter = pos (15 * millisecond);
  bandwidth_bytes_per_sec = pos 2500000;
})

-- Probabilities 0.03, 0.002 and 0.02.
abbrev pub cellular_3g : Profile
cellular_3g = both_ways (codes "cellular-3g") 3003 (record {
  drop_probability = scaled (pos 270215977642230);
  duplicate_probability = scaled (pos 18014398509482);
  reorder_probability = scaled (pos 180143985094820);
  reorder_hold = pos (8 * millisecond);
  latency = pos (90 * millisecond);
  jitter = pos (40 * millisecond);
  bandwidth_bytes_per_sec = pos 550000;
})

-- Probabilities 0.005, 0.001 and 0.01.
abbrev pub satellite : Profile
satellite = both_ways (codes "satellite") 4004 (record {
  drop_probability = scaled (pos 45035996273705);
  duplicate_probability = scaled (pos 9007199254741);
  reorder_probability = scaled (pos 90071992547410);
  reorder_hold = pos (15 * millisecond);
  latency = pos (600 * millisecond);
  jitter = pos (80 * millisecond);
  bandwidth_bytes_per_sec = pos 250000;
})

-- Probabilities 0.15, 0.01 and 0.04.
abbrev pub flaky : Profile
flaky = both_ways (codes "flaky") 5005 (record {
  drop_probability = scaled (pos 1351079888211149);
  duplicate_probability = scaled (pos 90071992547410);
  reorder_probability = scaled (pos 360287970189640);
  reorder_hold = pos (10 * millisecond);
  latency = pos (60 * millisecond);
  jitter = pos (50 * millisecond);
  bandwidth_bytes_per_sec = pos 900000;
})

abbrev builtin_profiles : List (Bytes × Profile)
builtin_profiles =
    (codes "passthrough", passthrough_profile)
    ∷ (codes "wifi-good", wifi_good)
    ∷ (codes "cellular-lte", cellular_lte)
    ∷ (codes "cellular-3g", cellular_3g)
    ∷ (codes "satellite", satellite)
    ∷ (codes "flaky", flaky)
    ∷ []

lookup_profile : Bytes → List (Bytes × Profile) → Option Profile
lookup_profile name [] = none
lookup_profile name ((key, p) ∷ rest) =
    if same_bytes key name then some p else lookup_profile name rest

unfoldable pub builtin_profile : Bytes → Option Profile
unfolding lookup_profile
builtin_profile name = lookup_profile name builtin_profiles
