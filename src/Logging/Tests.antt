-- ===== src/Logging/Tests.antt =====
-- The log file at concrete inputs.
use quixiot.Prelude.{◌≡◌, refl, Bool, true, false, none, some, ltb, if◌then◌else◌, arith}
use quixiot.Prelude.Strings.{codes}
use quixiot.Logging.{FileCall, RotatingFile, write}
use quixiot.Logging.Rotation.{IsBounded, write-IsBounded}

abbrev works : FileCall → Bool
works c = false

abbrev some_log : RotatingFile
some_log = record {
  max_bytes = 8;
  max_files = 3;
  file = true;
  size = 5;
  disk = λ i. if ltb i 3 then some (codes "12345") else none;
}

some_log-IsBounded : IsBounded some_log
some_log-IsBounded = record {
  positive = omega arith;
  within = omega arith;
  counted = λ _. refl;
  on_disk = omega arith;
}

write-IsBounded_example : IsBounded (write works 0 (codes "abcd") some_log).0
write-IsBounded_example = write-IsBounded works 0 (codes "abcd") some_log some_log-IsBounded

-- The record does not fit behind the five bytes, so it starts the next file.
write_run :
    let (v, n, e) = write works 0 (codes "abcd") some_log in
    (n ≡ 4)
    × (e ≡ none)
    × (v.size ≡ 4)
    × (v.disk 0 ≡ some (codes "abcd"))
    × (v.disk 1 ≡ some (codes "12345"))
unfolding write
write_run = (refl, refl, refl, refl, refl)
