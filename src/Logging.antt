-- ===== src/Logging.antt =====
-- internal/logging/logging.go: the rotating log file. A path is a number, 0 for the log's own and i for
-- `backupPath(path, i)`; the disk says what each path holds. `fails` says which calls of the file system
-- fail; a failed write has written as many bytes as `written` says.
pub mod Trim
pub mod Rotation
pub mod Shifting
mod Tests
use quixiot.Prelude.{
  ℕ, zero, suc, ◌+◌, ◌-◌, min, Bool, true, false, not, ◌&&◌, ◌||◌, List, [], ◌∷◌, ◌++◌, Bytes,
  Option, none, some, length, take, drop, ltb, leb, ◌==◌, if◌then◌else◌, is_empty,
}
use quixiot.Prelude.Strings.{codes}

-- 10 MiB
abbrev pub default_file_max_bytes : ℕ
default_file_max_bytes = 10485760

abbrev pub default_file_max_files : ℕ
default_file_max_files = 3

-- "[log record truncated]\n"
abbrev pub truncated_mark : Bytes
truncated_mark = codes "[log record truncated]" ++ 10 ∷ []

-- A bound that is not positive is 0 here.
pub trim_record : Bytes → ℕ → Bytes
trim_record p max_bytes =
    if max_bytes == 0 || leb (length p) max_bytes
    then p
    else if leb max_bytes (length truncated_mark)
    then drop (length p - max_bytes) p
    else truncated_mark ++ drop (length p - (max_bytes - length truncated_mark)) p

pub data FileCall : Type 0 where
  make_dir open_file stat_file close_file write_file : FileCall
  remove_path : ℕ → FileCall
  rename_path : ℕ → ℕ → FileCall

-- The writer with the disk behind it. `file` tells if a file is open.
pub record RotatingFile : Type 0 where
  pub max_bytes : ℕ
  pub max_files : ℕ
  pub file : Bool
  pub size : ℕ
  pub disk : ℕ → Option Bytes

pub data LogError : Type 0 where
  path_required : LogError
  call_failed : FileCall → LogError

-- A call's effects remain when a later one fails.
abbrev pub Outcome : Type 0
Outcome = RotatingFile × Option LogError

abbrev pub put_path : (ℕ → Option Bytes) → ℕ → Option Bytes → ℕ → Option Bytes
put_path d i v j = if i == j then v else d j

abbrev pub content_of : Option Bytes → Bytes
content_of none = []
content_of (some b) = b

-- `os.Rename`, which leaves all as it is where the old path does not exist.
moved : (ℕ → Option Bytes) → ℕ → ℕ → Option Bytes → ℕ → Option Bytes
moved d old new none = d
moved d old new (some b) = put_path (put_path d old none) new (some b)

pub rename_on : (ℕ → Option Bytes) → ℕ → ℕ → ℕ → Option Bytes
unfolding moved
rename_on d old new = moved d old new (d old)

-- The next call of a chain, unless this one fails.
abbrev pub calling : Bool → FileCall → RotatingFile → Outcome → Outcome
calling fail c w after = if fail then (w, some (call_failed c)) else after

-- The first `n` bytes of `p` behind the open file.
pub add_bytes : ℕ → Bytes → RotatingFile → RotatingFile
add_bytes n p w = record w {
  size = w.size + n;
  disk = put_path w.disk 0 (some (content_of (w.disk 0) ++ take n p));
}

module _ (fails : FileCall → Bool) (written : ℕ) where
  -- `openLocked`
  pub open_locked : RotatingFile → Outcome
  open_locked w = calling (fails make_dir) make_dir w (
      calling (fails open_file) open_file w (
        let made = record w { disk = put_path w.disk 0 (some (content_of (w.disk 0))) } in
        calling (fails stat_file) stat_file made
          (record made { file = true; size = length (content_of (w.disk 0)) }, none)))

  -- The loop from `i` = `n` down to 1, and what follows it.
  pub shift_backups : ℕ → RotatingFile → Outcome
  unfolding open_locked rename_on
  shift_backups zero w =
      calling (fails (rename_path 0 1)) (rename_path 0 1) w
        (open_locked (record w { disk = rename_on w.disk 0 1 }))
  shift_backups (suc i) w =
      let rest = shift_backups i (record w { disk = rename_on w.disk (suc i) (suc (suc i)) }) in
      calling (fails (rename_path (suc i) (suc (suc i)))) (rename_path (suc i) (suc (suc i))) w rest

  -- Behind the closing of the old file.
  pub rotate_closed : RotatingFile → Outcome
  unfolding shift_backups
  rotate_closed w =
      if leb w.max_files 1
      then calling (fails (remove_path 0)) (remove_path 0) w
          (open_locked (record w { disk = put_path w.disk 0 none }))
      else calling (fails (remove_path (w.max_files - 1))) (remove_path (w.max_files - 1)) w (
          shift_backups (w.max_files - 2)
            (record w { disk = put_path w.disk (w.max_files - 1) none }))

  -- `rotateLocked`
  pub rotate_locked : RotatingFile → Outcome
  unfolding rotate_closed
  rotate_locked w =
      calling (w.file && fails close_file) close_file w (rotate_closed (record w { file = false }))

  -- The write to the file, and its answer. With no file open it writes nothing and fails.
  pub append_record : ℕ → Bytes → RotatingFile → RotatingFile × ℕ × Option LogError
  unfolding add_bytes
  append_record accepted p w =
      let part = min written (length p) in
      if not w.file
      then (w, 0, some (call_failed write_file))
      else if fails write_file
      then (add_bytes part p w, part, some (call_failed write_file))
      else (add_bytes (length p) p w, accepted, none)

  pub write_rotated : ℕ → Bytes → Outcome → RotatingFile × ℕ × Option LogError
  unfolding append_record
  write_rotated accepted p (w, some e) = (w, 0, some e)
  write_rotated accepted p (w, none) = append_record accepted p w

  -- `Write`. Sizes are below 2^63.
  pub write : Bytes → RotatingFile → RotatingFile × ℕ × Option LogError
  unfolding trim_record rotate_locked write_rotated
  write p0 w =
      let p = trim_record p0 w.max_bytes in
      write_rotated (length p0) p (
        if not (w.size == 0) && ltb w.max_bytes (w.size + length p)
        then rotate_locked w
        else (w, none))

  opened : Outcome → Outcome
  opened (w, some e) = (w, some e)
  opened (w, none) = if leb w.max_bytes w.size then rotate_locked w else (w, none)

  -- `NewRotatingFile`, over a disk. With an error there is no writer; what it did to the disk remains.
  pub new_rotating_file : Bool → ℕ → ℕ → (ℕ → Option Bytes) → Outcome
  unfolding opened
  new_rotating_file has_path max_bytes max_files disk =
      let w : RotatingFile = record {
        max_bytes = if max_bytes == 0 then default_file_max_bytes else max_bytes;
        max_files = if max_files == 0 then default_file_max_files else max_files;
        file = false;
        size = 0;
        disk = disk;
      } in
      if has_path then opened (open_locked w) else (w, some path_required)
