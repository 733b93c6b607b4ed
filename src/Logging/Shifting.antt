-- ===== src/Logging/Shifting.antt =====
-- Where the rotation puts the files.
use quixiot.Prelude.{
  ℕ, zero, suc, ◌-◌, ◌≡◌, ◌≢◌, refl, ap, ◌∙◌, Bool, true, false, ◌&&◌, [], Bytes, Option, none,
  some, length, ltb, leb, ◌==◌, if◌then◌else◌, arith, Bool-cases, Option-cases, inl, inr,
}
use quixiot.Logging.{
  FileCall, RotatingFile, Outcome, put_path, content_of, rename_on, moved, open_locked,
  shift_backups, rotate_closed, rotate_locked, make_dir, open_file, stat_file, close_file,
  remove_path, rename_path,
}

rename_missing :
    (d : ℕ → Option Bytes) (old new j : ℕ)
    → d old ≡ none
    → d new ≡ none
    → d j ≡ (if new == j then none else if old == j then none else d j)
rename_missing d old new j e free = elim (Bool-cases (new == j)) [
  | inl a ↦ rw a (ap d (ground (arith, a)) ∙ free)
  | inr a ↦ elim (Bool-cases (old == j)) [
    | inl b ↦ rw (a, b) (ap d (ground (arith, b)) ∙ e)
    | inr b ↦ rw (a, b) refl
  ]
]

-- A rename to a path where nothing is.
rename_lem :
    (d : ℕ → Option Bytes) (old new j : ℕ)
    → d new ≡ none
    → old ≢ new
    → rename_on d old new j ≡ (if new == j then d old else if old == j then none else d j)
unfolding rename_on moved
rename_lem d old new j free apart = elim (Option-cases (d old)) [
  | inl e ↦ rw e (rename_missing d old new j e free)
  | inr (b, e) ↦ rw e (ground (arith))
]

-- One file shifted, and one more in front of others.
shift_first :
    (d : ℕ → Option Bytes) (k : ℕ)
    → d 1 ≡ none
    → rename_on d 0 1 (suc k) ≡ (if leb k 0 then d k else d (suc k))
shift_first d zero free = ground (arith, rename_lem d 0 1 1 free (λ e. omega (arith, e)))
shift_first d (suc k) free =
    ground (arith, rename_lem d 0 1 (suc (suc k)) free (λ e. omega (arith, e)))

shift_more :
    (d : ℕ → Option Bytes) (n k : ℕ)
    → d (suc (suc n)) ≡ none
    → let d' = rename_on d (suc n) (suc (suc n)) in
      (if leb k n then d' k else d' (suc k)) ≡ (if leb k (suc n) then d k else d (suc k))
shift_more d n k free =
    let at = λ (j : ℕ). rename_lem d (suc n) (suc (suc n)) j free (λ e. omega (arith, e)) in
    elim (Bool-cases (suc n == k)) [
      | inl e ↦
          let same : d (suc n) ≡ d k = ap d (ground (arith, e)) in
          ground (arith, e, same, at k, at (suc k))
      | inr e ↦ ground (arith, e, at k, at (suc k))
    ]

module _ (fails : FileCall → Bool) (written : ℕ) (works : (c : FileCall) → fails c ≡ false) where
  -- The files behind a loop over `n` backups, where the one behind the last is free.
  abbrev Moves : ℕ → RotatingFile → Outcome → Type 0
  Moves n w o =
      (o.1 ≡ none)
      × (o.0.file ≡ true)
      × (o.0.disk 0 ≡ some [])
      × ((k : ℕ) → o.0.disk (suc k) ≡ (if leb k n then w.disk k else w.disk (suc k)))

  open_locked_lem :
      (w : RotatingFile)
      → open_locked fails written w ≡ (
        record w {
          file = true;
          size = length (content_of (w.disk 0));
          disk = put_path w.disk 0 (some (content_of (w.disk 0)));
        },
        none,
      )
  unfolding open_locked
  open_locked_lem w = rw (works make_dir, works open_file, works stat_file) refl

  shift_backups-Moves :
      (n : ℕ) (w : RotatingFile)
      → w.disk (suc n) ≡ none
      → Moves n w (shift_backups fails written n w)
  unfolding shift_backups
  shift_backups-Moves zero w free =
      rw (works (rename_path 0 1), open_locked_lem _)
        (
          refl,
          refl,
          ap (λ o. some (content_of o)) (rename_lem w.disk 0 1 0 free (λ e. omega (arith, e))),
          λ k. ground (arith, shift_first w.disk k free),
        )
  shift_backups-Moves (suc n) w free =
      let gone : rename_on w.disk (suc n) (suc (suc n)) (suc n) ≡ none =
        ground
          (arith, rename_lem w.disk (suc n) (suc (suc n)) (suc n) free (λ e. omega (arith, e))) in
      let (done, open_file', empty, moves) =
        shift_backups-Moves n (record w { disk = rename_on w.disk (suc n) (suc (suc n)) }) gone in
      rw (works (rename_path (suc n) (suc (suc n))))
        (done, open_file', empty, λ k. moves k ∙ shift_more w.disk n k free)

  rotate_closed_lem :
      (w : RotatingFile)
      → let o = rotate_closed fails written w in
        (o.1 ≡ none)
        × (o.0.file ≡ true)
        × (o.0.disk 0 ≡ some [])
        × ((k : ℕ)
            → o.0.disk (suc k) ≡ (if ltb (suc k) w.max_files then w.disk k else w.disk (suc k)))
  unfolding rotate_closed
  rotate_closed_lem w = elim (Bool-cases (leb w.max_files 1)) [
    | inl e ↦
        rw (e, works (remove_path 0), open_locked_lem _) (refl, refl, refl, λ k. ground (arith, e))
    | inr e ↦
        let last = w.max_files - 1 in
        let (done, open_file', empty, moves) =
          shift_backups-Moves (w.max_files - 2) (record w { disk = put_path w.disk last none })
            (ground (arith, e)) in
        rw (e, works (remove_path last)) (done, open_file', empty, λ k. ground (arith, e, moves k))
  ]

-- Where no call fails, `rotateLocked` leaves an empty active file, open. The file before it, and each
-- backup, is moved one place on: below `maxFiles` each place has what the one in front of it had, so
-- that the content of the last place is the only one given up, and the places from `maxFiles` on are
-- left alone.
pub rotate_locked_shifts :
    (fails : FileCall → Bool) (written : ℕ)
    → ((c : FileCall) → fails c ≡ false)
    → (w : RotatingFile)
    → let (v, e) = rotate_locked fails written w in
      (e ≡ none)
      × (v.file ≡ true)
      × (v.disk 0 ≡ some [])
      × ((k : ℕ) → v.disk (suc k) ≡ (if ltb (suc k) w.max_files then w.disk k else w.disk (suc k)))
unfolding rotate_locked
rotate_locked_shifts fails written works w =
    let shut : (w.file && fails close_file) ≡ false = ground (arith, works close_file) in
    rw shut (rotate_closed_lem fails written works (record w { file = false }))
