-- ===== src/ProxyCommand/Loading.antt =====
-- The profile that the proxy runs is the one that was loaded.
use quixiot.Prelude.{
  ◌≡◌, ◌≢◌, ◌⊎◌, inl, inr, refl, ◌∙◌, subst, [], ◌∷◌, Bytes, Option, is_empty, if◌then◌else◌,
  if_elim, Option-cases, Result, ok, err, arith,
}
use quixiot.Prelude.Strings.{same_bytes}
use quixiot.Impair.Config.{
  Profile, ConfigError, normalize_profile, validate, custom_name, passthrough_name,
}
use quixiot.Impair.Config.Valid.{normalize_profile_stable, normalize_profile-named}
use quixiot.Impair.Profiles.{builtin_profile}
use quixiot.Impair.Profiles.Shipped.{builtin_profile-normalized}
use quixiot.Proxy.{Proxy, Options, new_proxy}
use quixiot.ProxyCommand.{
  file_stem, renamed, from_file, from_name, load_profile, resolve_profile_path,
}

-- A profile that `NormalizeProfile` keeps, or would but for its empty name.
pub record IsLoaded (p : Profile) : Type 0 where
  pub valid : validate p ≡ ok tt
  pub kept : p.name ≢ [] → normalize_profile p ≡ ok p

from_valid : (p : Profile) → validate p ≡ ok tt → IsLoaded p
from_valid p e = record { valid = e; kept = λ set. normalize_profile-named p set ∙ rw e refl }

rename_valid :
    (p : Profile) (name : Bytes) → validate p ≡ ok tt → validate (record p { name = name }) ≡ ok tt
unfolding validate
rename_valid p name e = e

renamed-IsLoaded :
    (path : Bytes) (r : Result ConfigError Profile) {p : Profile}
    → ((q : Profile) → r ≡ ok q → validate q ≡ ok tt)
    → renamed path r ≡ ok p
    → IsLoaded p
unfolding renamed
renamed-IsLoaded path (err reason) valid e = cc
renamed-IsLoaded path (ok q) {p} valid e =
    let fine = valid q refl in
    let fresh = record q { name = file_stem path } in
    let same : (if same_bytes q.name custom_name then fresh else q) ≡ p = cc in
    subst IsLoaded same (
      if_elim IsLoaded (same_bytes q.name custom_name) fresh q
        (λ _. from_valid fresh (rename_valid q (file_stem path) fine)) (λ _. from_valid q fine))

normalized_valid : (r q : Profile) → normalize_profile r ≡ ok q → validate q ≡ ok tt
normalized_valid r q e = (normalize_profile_stable r q e).1

List-cases : (xs : Bytes) → (xs ≡ []) ⊎ (xs ≢ [])
List-cases [] = inl refl
List-cases (x ∷ xs) = inr (λ e. cc)

new_proxy-profile :
    (o : Options) (p : Profile) (q : Proxy)
    → o.profile ≡ p
    → normalize_profile p ≡ ok p
    → new_proxy o ≡ ok q
    → q.profile ≡ p
unfolding new_proxy
new_proxy-profile o p q given kept made = ground (arith, given, kept, made)

module _ (decode : Bytes → Option Profile) where
  from_file-IsLoaded : (path : Bytes) {p : Profile} → from_file decode path ≡ ok p → IsLoaded p
  unfolding from_file
  from_file-IsLoaded path {p} e = elim (Option-cases (decode path)) [
    | inl failed ↦ absurd (ground (arith, e, failed))
    | inr (r, decoded) ↦
        renamed-IsLoaded path (normalize_profile r) (normalized_valid r)
          (ground (arith, e, decoded))
  ]

  from_name-IsLoaded : (name : Bytes) {p : Profile} → from_name decode name ≡ ok p → IsLoaded p
  unfolding from_name
  from_name-IsLoaded name {p} e = elim (Option-cases (builtin_profile name)) [
    | inl other ↦ from_file-IsLoaded (resolve_profile_path name) (ground (arith, e, other))
    | inr (q, found) ↦
        let same : q ≡ p = ground (arith, e, found) in
        let kept = (builtin_profile-normalized name found).1 in
        subst IsLoaded same (from_valid q (normalized_valid q q kept))
  ]

  -- A profile that `loadProfile` returns, shipped or from a file, is valid; and a proxy that is made for it
  -- runs with this very profile, and so under the name that the command reports, unless the name is empty,
  -- as it is for a file whose name is its extension.
  pub new_proxy-load_profile :
      (raw : Bytes) (p : Profile) (o : Options) (q : Proxy)
      → load_profile decode raw ≡ ok p
      → o.profile ≡ p
      → new_proxy o ≡ ok q
      → (validate p ≡ ok tt) × ((q.profile ≡ p) ⊎ (p.name ≡ []))
  unfolding load_profile
  new_proxy-load_profile raw p o q e given made =
      let loaded = from_name-IsLoaded (if is_empty raw then passthrough_name else raw) e in
      (
        loaded.valid,
        elim (List-cases p.name) [
          | inl none_set ↦ inr none_set
          | inr set ↦ inl (new_proxy-profile o p q given (loaded.kept set) made)
        ],
      )
