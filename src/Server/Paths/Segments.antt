-- ===== src/Server/Paths/Segments.antt =====
-- The segments of the path that a client writes for a name.
use quixiot.Prelude.{◌≡◌, refl, ap, true, false, [], ◌∷◌, ◌++◌, Bytes, some, is_empty, All, arith}
use quixiot.Prelude.Strings.{codes, split_at, split_at_last, same_bytes}
use quixiot.Upload.{is_dot_name}
use quixiot.Server.Paths.{path_escape, segments, is_clean, decoded, unescape, unescaped, nothing}
use quixiot.Server.Paths.Escaping.{
  IsByte, unescape-path_escape, path_escape-Lacks, is_dot_name-path_escape,
}

-- A name that a path can hold.
pub record IsSegment (name : Bytes) : Type 0 where
  pub bytes : All IsByte name
  pub some_name : is_empty name ≡ false
  pub no_dots : is_dot_name name ≡ false

config_no_dots : is_dot_name (codes "config") ≡ false
unfolding is_dot_name same_bytes
config_no_dots = refl

files_no_dots : is_dot_name (codes "files") ≡ false
unfolding is_dot_name same_bytes
files_no_dots = refl

unescaped_read : (s t : Bytes) → unescape nothing s ≡ some t → unescaped s ≡ t
unfolding unescaped
unescaped_read s t e = ground (arith, e)

module _ (name : Bytes) (h : IsSegment name) where
  segments-config :
      segments (codes "/config/" ++ path_escape name) ≡ [] ∷ codes "config" ∷ path_escape name ∷ []
  unfolding segments split_at
  segments-config =
      ap (λ xs. [] ∷ codes "config" ∷ xs)
        (split_at_last 47 [] (path_escape name) (path_escape-Lacks name h.bytes))

  segments-files :
      segments (codes "/files/" ++ path_escape name) ≡ [] ∷ codes "files" ∷ path_escape name ∷ []
  unfolding segments split_at
  segments-files =
      ap (λ xs. [] ∷ codes "files" ∷ xs)
        (split_at_last 47 [] (path_escape name) (path_escape-Lacks name h.bytes))

  pub config_path :
      let segs = segments (codes "/config/" ++ path_escape name) in
      (is_clean segs ≡ true) × (decoded segs ≡ [] ∷ codes "config" ∷ name ∷ [])
  unfolding is_clean decoded unescape
  config_path =
      let no_dots = is_dot_name-path_escape name h.bytes h.no_dots in
      let read = unescape-path_escape name h.bytes in
      rw segments-config (
        rw (config_no_dots, no_dots) refl,
        ap (λ s. [] ∷ codes "config" ∷ s ∷ []) (unescaped_read (path_escape name) name read),
      )

  pub files_path :
      let segs = segments (codes "/files/" ++ path_escape name) in
      (is_clean segs ≡ true) × (decoded segs ≡ [] ∷ codes "files" ∷ name ∷ [])
  unfolding is_clean decoded unescape
  files_path =
      let no_dots = is_dot_name-path_escape name h.bytes h.no_dots in
      let read = unescape-path_escape name h.bytes in
      rw segments-files (
        rw (files_no_dots, no_dots) refl,
        ap (λ s. [] ∷ codes "files" ∷ s ∷ []) (unescaped_read (path_escape name) name read),
      )
