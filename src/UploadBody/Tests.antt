-- ===== src/UploadBody/Tests.antt =====
-- A body of seven bytes, read in two ways.
use quixiot.Prelude.{ℕ, ◌*◌, ◌≡◌, refl, true, [], ◌∷◌}
use quixiot.UploadBody.{new_deterministic_reader, copy}

abbrev squares : ℕ → ℕ
squares i = i * i

copy_run : copy squares (4 ∷ 3 ∷ []) (new_deterministic_reader 5) ≡ (0 ∷ 1 ∷ 4 ∷ 9 ∷ 16 ∷ [], true)
unfolding copy
copy_run = refl
