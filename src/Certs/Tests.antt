-- ===== src/Certs/Tests.antt =====
-- Certificates at concrete validities, and the theorem on them.
use quixiot.Prelude.{
  ℕ, ◌+◌, ◌*◌, ◌^◌, ◌≤◌, ◌<◌, ◌≡◌, ◌⊎◌, ◌↔◌, refl, false, [], ◌∷◌, ltb, if◌then◌else◌, arith,
}
use quixiot.Prelude.Int.{negsuc}
use quixiot.Prelude.Strings.{codes}
use quixiot.Certs.{hour, ten_years, ca_valid, ca_template, leaf_template}
use quixiot.Certs.Validity.{Covers, certificates_cover}

-- Thirty years.
expired_run : ca_valid (3 * ten_years) ≡ negsuc 8985944073709551615
unfolding ca_valid
expired_run = refl

abbrev year : ℕ
year = 365 * 24 * hour

certificates_cover_example :
    ((Covers (leaf_template (λ _. false) 5 year (codes "localhost" ∷ [])) 7) ↔ (7 ≤ 5 + year))
    × (((10 * year < 2 ^ 63)
          × (Covers (ca_template 5 year) 7
              ↔ (7 ≤ 5 + (if ltb ten_years (10 * year) then ten_years else 10 * year))))
        ⊎ ((2 ^ 63 ≤ 10 * year) × (10 * year < 2 ^ 64) × (¬ (Covers (ca_template 5 year) 7)))
        ⊎ (2 ^ 64 ≤ 10 * year))
certificates_cover_example =
    certificates_cover (λ _. false) (codes "localhost" ∷ []) 5 year 7 (omega arith) (omega arith)
