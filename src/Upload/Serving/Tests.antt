-- ===== src/Upload/Serving/Tests.antt =====
-- Runs of `ServeHTTP`, and the theorem on it.
use quixiot.Prelude.{
  if◌then◌else◌, ℕ, ◌≡◌, ◌⊎◌, refl, true, false, List, [], ◌∷◌, Bytes, none, some, ok, length,
}
use quixiot.Prelude.Int.{pos}
use quixiot.Prelude.Strings.{codes, same_bytes}
use quixiot.Upload.{
  regular, directory, removed_now, sanitize_filename, prune_dir, prune_scanned, prune_files, scan,
  sort_by_age, is_safe_rune, is_space,
}
use quixiot.Upload.Serving.{
  Handler, Disk, Request, Answers, refused, served, join, serve_http, serve_named, copied,
  copy_body, store, respond, clean_up, rename_onto, without_gone, is_gone,
}
use quixiot.Upload.Serving.Outcome.{Untouched, Stored, serve_http-Outcome}

-- A stand-in for the hash.
abbrev sum_hash : Bytes → Bytes
sum_hash bytes = length bytes ∷ []

abbrev handler : Handler
handler = record { dir = codes "d"; max_storage_bytes = 5 }

abbrev upload : Request
upload = record { name = codes "b"; content_length = pos 3; body = codes "xyz"; body_fails = false }

abbrev before : Disk
before = record {
  file = λ path. if same_bytes path (codes "d/a") then some (codes "old") else none;
  temp = none;
  stored = [];
}

-- The old file has to go, for the bound of five bytes.
abbrev fine : Answers
fine = record {
  dir_made = true;
  temp_dir_made = true;
  temp_made = true;
  temp_closed = true;
  renamed = true;
  temp_removed = true;
  listing = some (
      directory
      ∷ regular (record { path = codes "d/a"; size = 3; mod_time = 1 })
      ∷ regular (record { path = codes "d/b"; size = 3; mod_time = 2 })
      ∷ []);
  remove = λ _. removed_now;
}

served_run :
    let (t, reply) = serve_http sum_hash handler fine upload before in
    (reply ≡ served (record { bytes = 3; sha256 = 3 ∷ [] }))
    × (t.file (codes "d/b") ≡ some (codes "xyz"))
    × (t.file (codes "d/a") ≡ none)
unfolding serve_http serve_named copied store respond rename_onto without_gone is_gone copy_body
    prune_dir prune_scanned prune_files scan sort_by_age sanitize_filename is_safe_rune is_space
    same_bytes
served_run = (refl, refl, refl)

-- Two bytes more than the bound, announced as none.
too_long_run :
    serve_http sum_hash handler fine
      (record upload { body = codes "1234567"; content_length = pos 0 })
      before
    ≡ (before, refused 413)
unfolding serve_http serve_named copied store respond clean_up copy_body sanitize_filename
    is_safe_rune is_space same_bytes
too_long_run = refl

serve_http-Outcome_example :
    let (t, reply) = serve_http sum_hash handler fine upload before in
    Untouched fine before t reply
    ⊎ ((safe : List ℕ) × (sanitize_filename upload.name ≡ ok safe)
        × Stored sum_hash handler fine upload (join handler.dir safe) before t reply)
serve_http-Outcome_example = serve_http-Outcome sum_hash handler fine upload before
