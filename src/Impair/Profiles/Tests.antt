-- ===== src/Impair/Profiles/Tests.antt =====
-- Validation and the shipped profiles at concrete inputs.
use quixiot.Prelude.{◌≡◌, ◌↔◌, refl, some, ok, err, []}
use quixiot.Prelude.Int.{negsuc}
use quixiot.Impair.Config.{
  nan, zero_profile, zero_direction, passthrough_profile, custom_name, validate, in_to_client,
  jitter_field, normalize_profile,
}
use quixiot.Impair.Config.Valid.{IsValidDirection, validate_iff}
use quixiot.Prelude.Strings.{codes, same_bytes}
use quixiot.Impair.Profiles.{flaky, builtin_profile}

-- The zero profile becomes the passthrough profile, one without a name the custom one; NaN passes.
normalize_runs :
    (normalize_profile zero_profile ≡ ok passthrough_profile)
    × (normalize_profile (record flaky { name = [] }) ≡ ok (record flaky { name = custom_name }))
    × (validate (record flaky { to_server = record zero_direction { drop_probability = nan } })
        ≡ ok tt)
    × (normalize_profile (record flaky { to_client = record zero_direction { jitter = negsuc 0 } })
        ≡ err (in_to_client jitter_field))
unfolding normalize_profile validate
normalize_runs = (refl, refl, refl, refl)

validate_iff_example :
    (validate flaky ≡ ok tt) ↔ (IsValidDirection flaky.to_server × IsValidDirection flaky.to_client)
validate_iff_example = validate_iff flaky

builtin_flaky : builtin_profile (codes "flaky") ≡ some flaky
unfolding builtin_profile same_bytes
builtin_flaky = refl
