-- ===== src/Impair/Profiles/Shipped.antt =====
-- The shipped profiles are found under their own names and can be used.
use quixiot.Prelude.Strings.{same_bytes, same_bytes_iff}
use quixiot.Prelude.{◌≡◌, refl, List, [], ◌∷◌, All, Bool-cases, inl, inr, Bytes, some, ok, arith}
use quixiot.Impair.Config.{Profile, validate, normalize_profile}
use quixiot.Impair.Profiles.{builtin_profile, lookup_profile, builtin_profiles, same_bytes}

abbrev IsReady : Bytes × Profile → Type 0
IsReady (name, p) = (p.name ≡ name) × (normalize_profile p ≡ ok p)

lookup_profile-IsReady :
    (name : Bytes) (l : List (Bytes × Profile)) {p : Profile}
    → All IsReady l
    → lookup_profile name l ≡ some p
    → IsReady (name, p)
unfolding lookup_profile
lookup_profile-IsReady name [] h e = cc
lookup_profile-IsReady name ((key, q) ∷ l) {p} h e = elim (Bool-cases (same_bytes key name)) [
  | inl same ↦
      let q_p : q ≡ p = ground (arith, e, same) in
      rw (← q_p, ← (same_bytes_iff key name).0 same) h.0
  | inr other ↦ lookup_profile-IsReady name l h.1 (ground (arith, e, other))
]

builtin_profiles-IsReady : All IsReady builtin_profiles
unfolding normalize_profile validate
builtin_profiles-IsReady = (
  (refl, refl),
  ((refl, refl), ((refl, refl), ((refl, refl), ((refl, refl), ((refl, refl), tt))))),
)

-- A profile that `BuiltinProfile` finds has the name it was asked for, and `NormalizeProfile`
-- returns it as it is.
pub builtin_profile-normalized :
    (name : Bytes) {p : Profile}
    → builtin_profile name ≡ some p
    → (p.name ≡ name) × (normalize_profile p ≡ ok p)
unfolding builtin_profile
builtin_profile-normalized name =
    lookup_profile-IsReady name builtin_profiles builtin_profiles-IsReady
