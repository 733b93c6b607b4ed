-- ===== src/Logging/Rotation.antt =====
-- The rotation, and the bounds of what `Write` leaves on the disk.
use quixiot.Prelude.{
  ℕ, zero, suc, ◌+◌, ◌-◌, ◌≤◌, ◌<◌, min, ◌≡◌, ◌≢◌, refl, ap, Bool, true, false, not, ◌&&◌, Bytes,
  Option, none, some, length, take, ltb, leb, ◌==◌, if◌then◌else◌, length-append, length-take,
  arith, Bool-cases, Option-cases, ◌⊎◌, inl, inr,
}
use quixiot.Logging.{
  FileCall, LogError, write_file, RotatingFile, Outcome, content_of, rename_on, moved, calling,
  open_locked, shift_backups, rotate_closed, rotate_locked, add_bytes, append_record, write_rotated,
  write, trim_record, make_dir, open_file, stat_file, close_file, remove_path, rename_path,
}
use quixiot.Logging.Trim.{trim_record_fits}

-- The size that the writer counts is that of the file that it has open, and within the bound, and the log
-- file on the disk is within the bound too, open or not.
pub record IsBounded (w : RotatingFile) : Type 0 where
  pub positive : 0 < w.max_bytes
  pub within : w.size ≤ w.max_bytes
  pub counted : w.file ≡ true → length (content_of (w.disk 0)) ≡ w.size
  pub on_disk : length (content_of (w.disk 0)) ≤ w.max_bytes

-- A file that was opened anew, for a writer with this bound.
abbrev Fresh : ℕ → RotatingFile → Type 0
Fresh max w = (w.size ≡ 0) × (w.max_bytes ≡ max)

module _ (fails : FileCall → Bool) (written : ℕ) where
  rename_leaves : (d : ℕ → Option Bytes) (old new : ℕ) → old ≢ new → rename_on d old new old ≡ none
  unfolding rename_on moved
  rename_leaves d old new apart = elim (Option-cases (d old)) [
    | inl e ↦ rw e e
    | inr (b, e) ↦ rw e (ground (arith, apart))
  ]

  on_failure :
      {w : RotatingFile} (after : Outcome) (fail : Bool) (c : FileCall)
      → IsBounded w
      → IsBounded after.0
      → IsBounded (calling fail c w after).0
  on_failure after true c h k = h
  on_failure after false c h k = k

  -- The same writer over another disk, with no file open, whose log file is gone or the same.
  over_disk :
      (w : RotatingFile) (d : ℕ → Option Bytes)
      → w.file ≡ false
      → (d 0 ≡ none) ⊎ (content_of (d 0) ≡ content_of (w.disk 0))
      → IsBounded w
      → IsBounded (record w { disk = d })
  over_disk w d shut log h = record {
    positive = h.positive;
    within = h.within;
    counted = λ e. cc;
    on_disk = elim log [
      | inl gone ↦
          let empty : length (content_of (d 0)) ≡ 0 = ap (λ o. length (content_of o)) gone in
          omega (arith, empty)
      | inr same ↦ omega (arith, h.on_disk, ap length same)
    ];
  }

  -- A shift of older files leaves the log's own.
  rename_keeps : (d : ℕ → Option Bytes) (i j : ℕ) → rename_on d (suc i) (suc j) 0 ≡ d 0
  unfolding rename_on moved
  rename_keeps d i j = elim (Option-cases (d (suc i))) [
    | inl e ↦ rw e refl
    | inr (b, e) ↦ rw e (ground arith)
  ]

  -- A rotation that succeeds opens an empty file; one that fails opens none.
  open_empty :
      (w : RotatingFile)
      → w.disk 0 ≡ none
      → w.file ≡ false
      → IsBounded w
      → IsBounded (open_locked fails written w).0
  unfolding open_locked
  open_empty w gone shut h =
      let empty : length (content_of (w.disk 0)) ≡ 0 = ap (λ o. length (content_of o)) gone in
      let fits : length (content_of (w.disk 0)) ≤ w.max_bytes = omega (arith, empty) in
      on_failure _ (fails make_dir) make_dir h (
        on_failure _ (fails open_file) open_file h (
          on_failure _ (fails stat_file) stat_file (over_disk w _ shut (inr refl) h)
            (record { positive = h.positive; within = fits; counted = λ _. refl; on_disk = fits })))

  shift_backups-IsBounded :
      (i : ℕ) (w : RotatingFile)
      → w.file ≡ false
      → IsBounded w
      → IsBounded (shift_backups fails written i w).0
  unfolding shift_backups
  shift_backups-IsBounded zero w shut h =
      on_failure _ (fails (rename_path 0 1)) (rename_path 0 1) h (
        let gone = rename_leaves w.disk 0 1 (λ e. omega (arith, e)) in
        open_empty _ gone shut (over_disk w _ shut (inl gone) h))
  shift_backups-IsBounded (suc i) w shut h =
      on_failure _ (fails (rename_path (suc i) (suc (suc i)))) (rename_path (suc i) (suc (suc i))) h
        (shift_backups-IsBounded i _ shut
          (over_disk w _ shut (inr (ap content_of (rename_keeps w.disk i (suc i)))) h))

  rotate_closed-IsBounded :
      (w : RotatingFile)
      → w.file ≡ false
      → IsBounded w
      → IsBounded (rotate_closed fails written w).0
  unfolding rotate_closed
  rotate_closed-IsBounded w shut h = elim (Bool-cases (leb w.max_files 1)) [
    | inl e ↦ rw e (
        on_failure _ (fails (remove_path 0)) (remove_path 0) h
          (open_empty _ refl shut (over_disk w _ shut (inl refl) h)))
    | inr e ↦ rw e (
        on_failure _ (fails (remove_path (w.max_files - 1))) (remove_path (w.max_files - 1)) h (
          shift_backups-IsBounded (w.max_files - 2) _ shut
            (over_disk w _ shut (inr (ground (arith, e))) h)))
  ]

  rotate_locked-IsBounded :
      (w : RotatingFile) → IsBounded w → IsBounded (rotate_locked fails written w).0
  unfolding rotate_locked
  rotate_locked-IsBounded w h = on_failure _ (w.file && fails close_file) close_file h (
      rotate_closed-IsBounded _ refl (record {
        positive = h.positive;
        within = h.within;
        counted = λ e. cc;
        on_disk = h.on_disk;
      }))

  add_bytes-IsBounded :
      (n : ℕ) (p : Bytes) (w : RotatingFile)
      → w.file ≡ true
      → n ≤ length p
      → w.size + length p ≤ w.max_bytes
      → IsBounded w
      → IsBounded (add_bytes n p w)
  unfolding add_bytes
  add_bytes-IsBounded n p w opened_file part fits h =
      let old = content_of (w.disk 0) in
      record {
        positive = h.positive;
        within = omega (arith, part, fits);
        counted = λ _.
            omega
              (arith, length-append old (take n p), length-take n p, h.counted opened_file, part);
        on_disk = omega (
          arith,
          length-append old (take n p),
          length-take n p,
          h.counted opened_file,
          part,
          fits,
        );
      }

  on_branch :
      (b f : Bool) (x y z : RotatingFile × ℕ × Option LogError)
      → IsBounded x.0
      → (b ≡ true → IsBounded y.0)
      → (b ≡ true → IsBounded z.0)
      → IsBounded (if not b then x else if f then y else z).0
  on_branch false f x y z h k l = h
  on_branch true true x y z h k l = k refl
  on_branch true false x y z h k l = l refl

  append_record-IsBounded :
      (accepted : ℕ) (p : Bytes) (w : RotatingFile)
      → w.size + length p ≤ w.max_bytes
      → IsBounded w
      → IsBounded (append_record fails written accepted p w).0
  unfolding append_record
  append_record-IsBounded accepted p w fits h =
      on_branch w.file (fails write_file) _ _ _ h
        (λ o. add_bytes-IsBounded (min written (length p)) p w o (omega arith) fits h)
        (λ o. add_bytes-IsBounded (length p) p w o (omega arith) fits h)

  write_rotated-IsBounded :
      (accepted : ℕ) (p : Bytes) (o : Outcome)
      → (o.1 ≡ none → o.0.size + length p ≤ o.0.max_bytes)
      → IsBounded o.0
      → IsBounded (write_rotated fails written accepted p o).0
  unfolding write_rotated
  write_rotated-IsBounded accepted p (w, some e) fits h = h
  write_rotated-IsBounded accepted p (w, none) fits h =
      append_record-IsBounded accepted p w (fits refl) h

  on_success :
      (P : RotatingFile → Type 0) (w : RotatingFile) (after : Outcome) (fail : Bool) (c : FileCall)
      → (after.1 ≡ none → P after.0)
      → (calling fail c w after).1 ≡ none
      → P (calling fail c w after).0
  on_success P w after true c h e = cc
  on_success P w after false c h e = h e

  open_Fresh :
      (w : RotatingFile)
      → w.disk 0 ≡ none
      → (open_locked fails written w).1 ≡ none
      → Fresh w.max_bytes (open_locked fails written w).0
  unfolding open_locked
  open_Fresh w gone = on_success (Fresh w.max_bytes) _ _ (fails make_dir) make_dir (
      on_success (Fresh w.max_bytes) _ _ (fails open_file) open_file (
        on_success (Fresh w.max_bytes) _ _ (fails stat_file) stat_file
          (λ _. (ap (λ o. length (content_of o)) gone, refl))))

  shift_backups-Fresh :
      (i : ℕ) (w : RotatingFile)
      → (shift_backups fails written i w).1 ≡ none
      → Fresh w.max_bytes (shift_backups fails written i w).0
  unfolding shift_backups
  shift_backups-Fresh zero w =
      on_success (Fresh w.max_bytes) _ _ (fails (rename_path 0 1)) (rename_path 0 1)
        (open_Fresh _ (rename_leaves w.disk 0 1 (λ e. omega (arith, e))))
  shift_backups-Fresh (suc i) w =
      on_success (Fresh w.max_bytes) _ _ (fails (rename_path (suc i) (suc (suc i))))
        (rename_path (suc i) (suc (suc i))) (shift_backups-Fresh i _)

  rotate_closed-Fresh :
      (w : RotatingFile)
      → (rotate_closed fails written w).1 ≡ none
      → Fresh w.max_bytes (rotate_closed fails written w).0
  unfolding rotate_closed
  rotate_closed-Fresh w = elim (Bool-cases (leb w.max_files 1)) [
    | inl e ↦ rw e (
        on_success (Fresh w.max_bytes) _ _ (fails (remove_path 0)) (remove_path 0)
          (open_Fresh _ refl))
    | inr e ↦ rw e (
        on_success (Fresh w.max_bytes) _ _ (fails (remove_path (w.max_files - 1)))
          (remove_path (w.max_files - 1)) (shift_backups-Fresh (w.max_files - 2) _))
  ]

  rotate_locked-Fresh :
      (w : RotatingFile)
      → (rotate_locked fails written w).1 ≡ none
      → Fresh w.max_bytes (rotate_locked fails written w).0
  unfolding rotate_locked
  rotate_locked-Fresh w =
      on_success (Fresh w.max_bytes) _ _ (w.file && fails close_file) close_file
        (rotate_closed-Fresh _)

trimmed_fits : (p : Bytes) (max : ℕ) → 0 < max → length (trim_record p max) ≤ max
trimmed_fits p max positive =
    let (short, long) = trim_record_fits p max positive in
    elim (Bool-cases (leb (length p) max)) [
      | inl e ↦
          let fits : length p ≤ max = ground (arith, e) in
          omega (arith, ap length (short fits), fits)
      | inr e ↦ let over : max < length p = ground (arith, e) in omega (arith, (long over).0)
    ]

-- Whatever calls of the file system fail, and however much a failed write has written: `Write` leaves the
-- log file on the disk at no more bytes than the bound, whether the writer then has it open or not, and the
-- writer's count at the size of the file that is open.
pub write-IsBounded :
    (fails : FileCall → Bool) (written : ℕ) (p : Bytes) (w : RotatingFile)
    → IsBounded w
    → IsBounded (write fails written p w).0
unfolding write
write-IsBounded fails written p w h =
    let t = trim_record p w.max_bytes in
    let fits = trimmed_fits p w.max_bytes h.positive in
    elim (Bool-cases (not (w.size == 0) && ltb w.max_bytes (w.size + length t))) [
      | inl e ↦
          let o = rotate_locked fails written w in
          simp e (
            write_rotated-IsBounded fails written (length p) t o
              (λ ok.
                let (empty, same) = rotate_locked-Fresh fails written w ok in
                omega (arith, empty, same, fits))
              (rotate_locked-IsBounded fails written w h))
      | inr e ↦ simp e (
          write_rotated-IsBounded fails written (length p) t (w, none)
            (λ _. ground (arith, e, fits)) h)
    ]
