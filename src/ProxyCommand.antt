-- ===== src/ProxyCommand.antt =====
-- cmd/proxy/main.go: `loadProfile`. The profile files that yaml.v3 decodes over a zero profile are the
-- argument `decode`; a path that it decodes does not end in a slash.
pub mod Loading
pub mod Run
mod Tests
use quixiot.Prelude.{
  ℕ, Bool, true, false, ◌||◌, List, [], ◌∷◌, ◌++◌, Bytes, Option, none, some, is_empty, length, ◌-◌,
  drop, take, ◌==◌, if◌then◌else◌, Result, ok, err,
}
use quixiot.Prelude.Strings.{codes, same_bytes}
use quixiot.Impair.Config.{Profile, ConfigError, normalize_profile, custom_name, passthrough_name}
use quixiot.Impair.Profiles.{builtin_profile}

-- `strings.HasSuffix`
ends_in : Bytes → Bytes → Bool
ends_in suffix raw = same_bytes (drop (length raw - length suffix) raw) suffix

contains_byte : ℕ → Bytes → Bool
contains_byte b [] = false
contains_byte b (c ∷ rest) = c == b || contains_byte b rest

-- `resolveProfilePath`
pub resolve_profile_path : Bytes → Bytes
unfolding contains_byte ends_in
resolve_profile_path raw =
    if contains_byte 47 raw || ends_in (codes ".yaml") raw || ends_in (codes ".yml") raw
    then raw
    else codes "configs/proxy-" ++ (raw ++ codes ".yaml")

-- The last element of a path, behind the begun one.
base_name : Bytes → Bytes → Bytes
base_name begun [] = begun
base_name begun (c ∷ rest) = base_name (if c == 47 then [] else begun ++ c ∷ []) rest

-- A name up to its last dot, if it has one.
without_extension : Bytes → Bytes
unfolding contains_byte
without_extension [] = []
without_extension (c ∷ rest) =
    let front = without_extension rest in
    if contains_byte 46 rest then c ∷ front else if c == 46 then [] else c ∷ rest

-- `strings.TrimSuffix(filepath.Base(path), filepath.Ext(path))`
pub file_stem : Bytes → Bytes
unfolding base_name without_extension
file_stem path = without_extension (base_name [] path)

pub data LoadError : Type 0 where
  load_profile_failed : LoadError
  profile_invalid : ConfigError → LoadError

-- Behind `NormalizeProfile`.
renamed : Bytes → Result ConfigError Profile → Result LoadError Profile
unfolding file_stem
renamed path (err e) = err (profile_invalid e)
renamed path (ok p) =
    ok (if same_bytes p.name custom_name then record p { name = file_stem path } else p)

from_file : (Bytes → Option Profile) → Bytes → Result LoadError Profile
unfolding renamed
from_file decode path = elim (decode path) [
  | none ↦ err load_profile_failed
  | some p ↦ renamed path (normalize_profile p)
]

from_name : (Bytes → Option Profile) → Bytes → Result LoadError Profile
unfolding from_file resolve_profile_path
from_name decode name = elim (builtin_profile name) [
  | some p ↦ ok p
  | none ↦ from_file decode (resolve_profile_path name)
]

-- `loadProfile`, without the text on its source.
unfoldable pub load_profile : (Bytes → Option Profile) → Bytes → Result LoadError Profile
unfolding from_name
load_profile decode raw = from_name decode (if is_empty raw then passthrough_name else raw)
