-- ===== src/Impair/Config/Valid.antt =====
-- Just which configurations `Validate` accepts, and what `NormalizeProfile` returns.
use quixiot.Prelude.{◌≡◌, ◌≢◌, ◌↔◌, refl, [], ok, arith, >>=-eq-ok, ◌>>=◌, if◌then◌else◌, ap, ◌∙◌}
use quixiot.Prelude.Int.{pos, ◌≤ℤ◌}
use quixiot.Impair.Config.{
  Probability, nan, scaled, one, DirectionConfig, Profile, Field, ConfigError, validate_direction,
  in_to_server, in_to_client, validate, normalize_profile, is_zero_profile, named,
  passthrough_profile,
}

-- A probability between 0 and 1, or NaN.
abbrev pub IsChance : Probability → Type 0
IsChance nan = Unit
IsChance (scaled p) = (pos 0 ≤ℤ p) × (p ≤ℤ one)

pub record IsValidDirection (c : DirectionConfig) : Type 0 where
  pub drops : IsChance c.drop_probability
  pub duplicates : IsChance c.duplicate_probability
  pub reorders : IsChance c.reorder_probability
  pub hold : pos 0 ≤ℤ c.reorder_hold
  pub latency : pos 0 ≤ℤ c.latency
  pub jitter : pos 0 ≤ℤ c.jitter
  pub bandwidth : pos 0 ≤ℤ c.bandwidth_bytes_per_sec

pub validate_direction_sound :
    (field : Field → ConfigError) (c : DirectionConfig)
    → validate_direction field c ≡ ok tt
    → IsValidDirection c
unfolding validate_direction
validate_direction_sound field c e = ground arith

pub validate_direction_complete :
    (field : Field → ConfigError) (c : DirectionConfig)
    → IsValidDirection c
    → validate_direction field c ≡ ok tt
unfolding validate_direction
validate_direction_complete field c h = ground arith

-- `Validate` accepts a profile just when both directions have every probability between 0 and 1, or
-- NaN, and no negative duration or rate.
pub validate_iff :
    (p : Profile)
    → (validate p ≡ ok tt) ↔ (IsValidDirection p.to_server × IsValidDirection p.to_client)
unfolding validate
validate_iff p = (
  λ e.
      let (_, first, second) = >>=-eq-ok (validate_direction in_to_server p.to_server) _ e in
      (
        validate_direction_sound in_to_server p.to_server (ground (arith, first)),
        validate_direction_sound in_to_client p.to_client second,
      ),
  λ h.
      rw (validate_direction_complete in_to_server p.to_server h.0)
        (validate_direction_complete in_to_client p.to_client h.1),
)

named-ne-nil : (p : Profile) → (named p).name ≢ []
unfolding named
named-ne-nil p = ground arith

-- A profile with a name is not the zero profile, and keeps its name.
pub normalize_profile-named :
    (q : Profile) → q.name ≢ [] → normalize_profile q ≡ (validate q >>= λ _. ok q)
unfolding normalize_profile
normalize_profile-named q h = ground (arith, h)

-- A profile that `NormalizeProfile` returns has a name, passes `Validate`, and normalizes to itself.
pub normalize_profile_stable :
    (p q : Profile)
    → normalize_profile p ≡ ok q
    → (q.name ≢ []) × (validate q ≡ ok tt) × (normalize_profile q ≡ ok q)
unfolding normalize_profile
normalize_profile_stable p q e =
    let r = named (if is_zero_profile p then passthrough_profile else p) in
    let (_, valid, same) = >>=-eq-ok (validate r) (λ _. ok r) e in
    let r_q : r ≡ q = cc in
    let set : q.name ≢ [] = λ none.
      named-ne-nil (if is_zero_profile p then passthrough_profile else p)
        (ap (λ (x : Profile). x.name) r_q ∙ none) in
    let valid_q : validate q ≡ ok tt = rw (← r_q) (valid ∙ refl) in
    (set, valid_q, normalize_profile-named q set ∙ rw valid_q)
