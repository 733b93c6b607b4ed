-- ===== src/Upload/Tests.antt =====
-- Names and directories, at concrete inputs.
use quixiot.Prelude.{
  ℕ, ◌≡◌, refl, false, List, [], ◌∷◌, some, none, length, total, All, ok, err, arith,
}
use quixiot.Prelude.Strings.{codes, same_bytes}
use quixiot.Upload.{
  UploadFile, DirEntry, directory, regular, removed_now, trim_space, contains_separator,
  is_safe_rune, sanitize_filename, is_dots, has_separator, sort_by_age, prune_dir, start, is_space,
  prune_scanned, scan, prune_files,
}
use quixiot.Upload.Names.{IsSafeName, sanitize_filename-IsSafeName}
use quixiot.Upload.Sorting.{Sorted}
use quixiot.Upload.Pruning.{bytes_of, regulars, Prunes, prune_dir-Prunes}

-- The name of the directory for temporary files is accepted too.
names_run :
    (sanitize_filename (codes " a b.bin ") ≡ ok (codes "a_b.bin"))
    × (sanitize_filename (codes "..") ≡ err is_dots)
    × (sanitize_filename (codes "a/b") ≡ err has_separator)
    × (sanitize_filename (codes ".tmp") ≡ ok (codes ".tmp"))
unfolding sanitize_filename is_safe_rune is_space same_bytes
names_run = (refl, refl, refl, refl)

sanitize_filename-IsSafeName_example :
    IsSafeName (codes "a_b.bin")
    × (contains_separator (codes "a_b.bin") ≡ false)
    × (contains_separator (trim_space (codes " a b.bin ")) ≡ false)
    × (length (codes "a_b.bin") ≡ length (trim_space (codes " a b.bin ")))
    × (sanitize_filename (codes "a_b.bin") ≡ ok (codes "a_b.bin"))
sanitize_filename-IsSafeName_example =
    sanitize_filename-IsSafeName (codes " a b.bin ") (codes "a_b.bin") names_run.0

abbrev file_a : UploadFile
file_a = record { path = codes "d/a"; size = 40; mod_time = 7 }

abbrev file_b : UploadFile
file_b = record { path = codes "d/b"; size = 30; mod_time = 5 }

abbrev file_c : UploadFile
file_c = record { path = codes "d/c"; size = 50; mod_time = 2 }

abbrev listing : List DirEntry
listing = directory ∷ regular file_a ∷ regular file_b ∷ regular file_c ∷ []

-- The oldest file is the one to keep, so the next one goes.
pruned_run : prune_dir (λ _. removed_now) 100 (codes "d/c") (some listing) ≡ (
  record { remaining_bytes = 90; removed_files = 1; removed_bytes = 30; gone = file_b ∷ [] },
  none,
)
unfolding prune_dir prune_scanned scan prune_files sort_by_age same_bytes
pruned_run = refl

prune_dir-Prunes_example :
    let files = regulars listing in
    let by_age = sort_by_age files in
    let (s, e) = prune_dir (λ _. removed_now) 100 (codes "d/c") (some listing) in
    Sorted by_age
    × ((w : UploadFile → ℕ) → total w by_age ≡ total w files)
    × All (λ f. same_bytes f.path (codes "d/c") ≡ false) s.gone
    × Prunes
        (λ _. removed_now)
        100
        (codes "d/c")
        by_age
        (start (λ _. removed_now) 100 (codes "d/c") (bytes_of files))
        s
        e
prune_dir-Prunes_example =
    prune_dir-Prunes (λ _. removed_now) 100 (codes "d/c") listing (omega arith) tt (omega arith)
