-- ===== src/Upload.antt =====
-- internal/upload/upload.go: `sanitizeFilename` and `PruneDir`. What the file system answers is given: the
-- listing of the directory, and what `os.Remove` returns for a path.
pub mod Names
pub mod Sorting
pub mod Pruning
pub mod Keeping
pub mod Serving
mod Tests
use quixiot.Prelude.{
  ℕ, suc, ◌+◌, ◌-◌, ◌%◌, ◌^◌, Bool, true, false, not, ◌&&◌, ◌||◌, List, [], ◌∷◌, ◌++◌, Bytes,
  Option, none, some, is_empty, ltb, leb, ◌==◌, if◌then◌else◌, map, Result, ok, err, guard, ◌>>=◌,
  ◌>>◌,
}
use quixiot.Prelude.Strings.{codes, same_bytes}

-- A name is its runes, as `range` and the functions of `strings` read them; a byte that is not UTF-8
-- is the rune 65533.
abbrev within : ℕ → ℕ → ℕ → Bool
within lo r hi = leb lo r && leb r hi

-- `unicode.IsSpace`, for `strings.TrimSpace`.
pub is_space : ℕ → Bool
is_space r =
    within 9 r 13
    || r == 32
    || r == 133
    || r == 160
    || r == 5760
    || within 8192 r 8202
    || r == 8232
    || r == 8233
    || r == 8239
    || r == 8287
    || r == 12288

pub trim_left : List ℕ → List ℕ
trim_left [] = []
trim_left (r ∷ rest) = let shorter = trim_left rest in if is_space r then shorter else r ∷ rest

pub trim_right : List ℕ → List ℕ
trim_right [] = []
trim_right (r ∷ rest) =
    let shorter = trim_right rest in if is_empty shorter && is_space r then [] else r ∷ shorter

-- `strings.TrimSpace`
pub trim_space : List ℕ → List ℕ
unfolding trim_left trim_right
trim_space name = trim_right (trim_left name)

-- `strings.ContainsAny(name, "/\\")`
pub contains_separator : List ℕ → Bool
contains_separator [] = false
contains_separator (r ∷ rest) = r == 47 || r == 92 || contains_separator rest

-- The runes that the switch keeps.
unfoldable pub is_safe_rune : ℕ → Bool
is_safe_rune r =
    within 97 r 122 || within 65 r 90 || within 48 r 57 || r == 46 || r == 45 || r == 95

pub safe_rune : ℕ → ℕ
unfolding is_safe_rune
safe_rune r = if is_safe_rune r then r else 95

pub data NameError : Type 0 where
  name_required has_separator is_dots no_safe_content : NameError

unfoldable pub is_dot_name : List ℕ → Bool
is_dot_name name = same_bytes name (codes ".") || same_bytes name (codes "..")

pub sanitize_filename : List ℕ → Result NameError (List ℕ)
unfolding trim_space contains_separator safe_rune is_dot_name
sanitize_filename name =
    let trimmed = trim_space name in
    let safe = map safe_rune trimmed in
    do
      guard (not (is_empty trimmed)) name_required
      guard (not (contains_separator trimmed)) has_separator
      guard (not (is_dot_name trimmed)) is_dots
      guard (not (is_empty safe || is_dot_name safe)) no_safe_content
      ok safe

-- A regular file of the directory. `path` is `filepath.Join` of the directory and the name, which is
-- clean; `size` is below 2^63; `mod_time` counts from a fixed instant.
pub record UploadFile : Type 0 where
  pub path : Bytes
  pub size : ℕ
  pub mod_time : ℕ

-- What `os.ReadDir` lists, with what `Info` answers.
pub data DirEntry : Type 0 where
  directory vanished stat_failed irregular : DirEntry
  regular : UploadFile → DirEntry

pub data Removal : Type 0 where
  removed_now not_there failed : Removal

pub data PruneError : Type 0 where
  read_dir stat_file remove_file over_cap : PruneError

-- The two's complement pattern of an int64, below 2^64.
abbrev pub add_int64 : ℕ → ℕ → ℕ
add_int64 a b = (a + b) % 2 ^ 64

abbrev pub sub_int64 : ℕ → ℕ → ℕ
sub_int64 a b = (a + 2 ^ 64 - b) % 2 ^ 64

-- `a <= b` of an int64 pattern and a bound that is not negative.
abbrev pub at_most : ℕ → ℕ → Bool
at_most a b = leb (2 ^ 63) a || leb a b

-- `PruneResult` without its constant field; `gone` are the files that `os.Remove` deleted or did not
-- find, the oldest first.
pub record PruneResult : Type 0 where
  pub remaining_bytes : ℕ
  pub removed_files : ℕ
  pub removed_bytes : ℕ
  pub gone : List UploadFile

-- The loop over the entries, up to an error: the sum of the sizes, and the files.
pub scan : List DirEntry → ℕ → ℕ × List UploadFile × Option PruneError
scan [] sum = (sum, [], none)
scan (regular f ∷ rest) sum =
    let (sum', files, e) = scan rest (add_int64 sum f.size) in (sum', f ∷ files, e)
scan (stat_failed ∷ rest) sum = (sum, [], some stat_file)
scan (directory ∷ rest) sum = scan rest sum
scan (vanished ∷ rest) sum = scan rest sum
scan (irregular ∷ rest) sum = scan rest sum

-- `<` on strings.
pub string_lt : Bytes → Bytes → Bool
string_lt _ [] = false
string_lt [] (y ∷ ys) = true
string_lt (x ∷ xs) (y ∷ ys) = ltb x y || (x == y && string_lt xs ys)

-- The order that `sort.Slice` is given.
pub older : UploadFile → UploadFile → Bool
unfolding string_lt
older f g = if f.mod_time == g.mod_time then string_lt f.path g.path else ltb f.mod_time g.mod_time

pub insert_by_age : UploadFile → List UploadFile → List UploadFile
unfolding older
insert_by_age f [] = f ∷ []
insert_by_age f (g ∷ rest) =
    let behind = insert_by_age f rest in if older g f then g ∷ behind else f ∷ g ∷ rest

-- The files in the order that the sort leaves them in. The paths of a directory differ, so that no
-- other order is sorted.
pub sort_by_age : List UploadFile → List UploadFile
unfolding insert_by_age
sort_by_age [] = []
sort_by_age (f ∷ rest) = insert_by_age f (sort_by_age rest)

abbrev pub take_off : UploadFile → PruneResult → PruneResult
take_off f r = record {
  remaining_bytes = sub_int64 r.remaining_bytes f.size;
  removed_files = suc r.removed_files;
  removed_bytes = add_int64 r.removed_bytes f.size;
  gone = r.gone ++ f ∷ [];
}

module _ (remove : Bytes → Removal) (max_bytes : ℕ) (keep_path : Bytes) where
  -- The loop over the files, and the test behind it.
  pub prune_files : List UploadFile → PruneResult → PruneResult × Option PruneError
  prune_files [] r = (r, if at_most r.remaining_bytes max_bytes then none else some over_cap)
  prune_files (f ∷ rest) r = elim (at_most r.remaining_bytes max_bytes) [
    | true ↦ (r, none)
    | false ↦ elim (same_bytes f.path keep_path) [
      | true ↦ prune_files rest r
      | false ↦ elim (remove f.path) [
        | removed_now ↦ prune_files rest (take_off f r)
        | not_there ↦ prune_files rest (take_off f r)
        | failed ↦ (r, some remove_file)
      ]
    ]
  ]

  abbrev pub start : ℕ → PruneResult
  start sum = record { remaining_bytes = sum; removed_files = 0; removed_bytes = 0; gone = [] }

  prune_scanned : ℕ × List UploadFile × Option PruneError → PruneResult × Option PruneError
  unfolding sort_by_age
  prune_scanned (sum, files, some e) = (start sum, some e)
  prune_scanned (sum, files, none) =
      if at_most sum max_bytes
      then (start sum, none)
      else prune_files (sort_by_age files) (start sum)

  -- `none` for a listing that `os.ReadDir` could not read. A bound that is not positive is 0 here.
  unfoldable pub prune_dir : Option (List DirEntry) → PruneResult × Option PruneError
  unfolding prune_scanned scan
  prune_dir listing = if max_bytes == 0 then (start 0, none) else elim listing [
    | none ↦ (start 0, some read_dir)
    | some entries ↦ prune_scanned (scan entries 0)
  ]
