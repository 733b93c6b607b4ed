-- ===== src/Upload/Pruning.antt =====
-- What `PruneDir` removes, and what it leaves.
use quixiot.Prelude.{
  ℕ, ◌+◌, ◌-◌, ◌^◌, ◌≤◌, ◌<◌, ◌≡◌, refl, ap, sym, ◌∙◌, subst, true, false, List, [], ◌∷◌, ◌++◌,
  Bytes, Option, none, some, length, ◌==◌, if◌then◌else◌, total, All, arith, Bool-cases, inl, inr,
  ◌⊎◌, append-nil, append_assoc,
}
use quixiot.Prelude.Strings.{same_bytes}
use quixiot.Upload.{
  UploadFile, DirEntry, directory, vanished, stat_failed, irregular, regular, Removal, removed_now,
  not_there, failed, PruneError, remove_file, over_cap, PruneResult, at_most, add_int64, sub_int64,
  take_off, scan, sort_by_age, prune_files, prune_scanned, prune_dir, start,
}
use quixiot.Upload.Sorting.{Sorted, total-sort_by_age, sort_by_age-Sorted}

-- The sizes of files, added up.
abbrev pub bytes_of : List UploadFile → ℕ
bytes_of files = total (λ f. f.size) files

-- The regular files of a listing.
abbrev pub regulars : List DirEntry → List UploadFile
regulars [] = []
regulars (regular f ∷ rest) = f ∷ regulars rest
regulars (_ ∷ rest) = regulars rest

-- No entry failed in its `Info`, other than for being gone.
abbrev pub Readable : List DirEntry → Type 0
Readable [] = Unit
Readable (stat_failed ∷ rest) = ⊥
Readable (_ ∷ rest) = Readable rest

-- The files that may go: all but the one to keep.
abbrev pub evictable : Bytes → List UploadFile → List UploadFile
evictable keep [] = []
evictable keep (f ∷ rest) =
    if same_bytes f.path keep then evictable keep rest else f ∷ evictable keep rest

-- Each of the files went while more than `max` bytes were left.
abbrev pub Needed : ℕ → ℕ → List UploadFile → Type 0
Needed max left [] = Unit
Needed max left (f ∷ rest) = (max < left) × Needed max (left - f.size) rest

scan_lem :
    (entries : List DirEntry) (sum : ℕ)
    → Readable entries
    → sum + bytes_of (regulars entries) < 2 ^ 63
    → scan entries sum ≡ (sum + bytes_of (regulars entries), regulars entries, none)
unfolding scan
scan_lem [] sum h b = ground arith
scan_lem (directory ∷ rest) sum h b = scan_lem rest sum h b
scan_lem (vanished ∷ rest) sum h b = scan_lem rest sum h b
scan_lem (stat_failed ∷ rest) sum h b = elim h [ ]
scan_lem (irregular ∷ rest) sum h b = scan_lem rest sum h b
scan_lem (regular f ∷ rest) sum h b =
    let e : add_int64 sum f.size ≡ sum + f.size = omega (arith, b) in
    let ih = scan_lem rest (sum + f.size) h (omega (arith, b)) in rw (e, ih) (ground arith)

module _ (remove : Bytes → Removal) (max : ℕ) (keep : Bytes) where
  -- From the result `r`, with `files` to come: the run takes off `evicted`, and comes to `s` and `e`.
  pub record Prunes (files : List UploadFile) (r s : PruneResult) (e : Option PruneError)
      : Type 0 where
    pub evicted : List UploadFile
    pub left : List UploadFile
    pub oldest_first : evictable keep files ≡ evicted ++ left
    pub gone : s.gone ≡ r.gone ++ evicted
    pub remaining : s.remaining_bytes + bytes_of evicted ≡ r.remaining_bytes
    pub removed : s.removed_bytes ≡ r.removed_bytes + bytes_of evicted
    pub counted : s.removed_files ≡ r.removed_files + length evicted
    pub needed : Needed max r.remaining_bytes evicted
    pub under_cap : e ≡ none → s.remaining_bytes ≤ max
    pub over : e ≡ some over_cap → (left ≡ []) × (max < s.remaining_bytes)
    pub refused :
        e ≡ some remove_file
        → (f : UploadFile) × (rest : List UploadFile) × (left ≡ f ∷ rest) × (remove f.path ≡ failed)

  stops :
      (files : List UploadFile) (r : PruneResult) → r.remaining_bytes ≤ max → Prunes files r r none
  stops files r h = record {
    evicted = [];
    left = evictable keep files;
    oldest_first = refl;
    gone = sym (append-nil r.gone);
    remaining = omega arith;
    removed = omega arith;
    counted = omega arith;
    needed = tt;
    under_cap = λ _. h;
    over = λ e. cc;
    refused = λ e. cc;
  }

  -- One file goes, and then the run goes on.
  removes :
      (f : UploadFile) (files : List UploadFile) (r s : PruneResult) (e : Option PruneError)
      → same_bytes f.path keep ≡ false
      → max < r.remaining_bytes
      → f.size ≤ r.remaining_bytes
      → r.remaining_bytes + r.removed_bytes < 2 ^ 63
      → Prunes files (take_off f r) s e
      → Prunes (f ∷ files) r s e
  removes f files r s e other over_max fits small h =
      let off : sub_int64 r.remaining_bytes f.size ≡ r.remaining_bytes - f.size =
        omega (arith, fits, small) in
      let on : add_int64 r.removed_bytes f.size ≡ r.removed_bytes + f.size =
        omega (arith, fits, small) in
      record {
        evicted = f ∷ h.evicted;
        left = h.left;
        oldest_first = rw other (ap (◌∷◌ f) h.oldest_first);
        gone = h.gone ∙ append_assoc r.gone (f ∷ []) h.evicted;
        remaining = omega (arith, h.remaining, off, fits);
        removed = omega (arith, h.removed, on);
        counted = omega (arith, h.counted);
        needed = (over_max, subst (λ n. Needed max n h.evicted) off h.needed);
        under_cap = h.under_cap;
        over = h.over;
        refused = h.refused;
      }

  -- The file to keep is passed by.
  passes :
      (f : UploadFile) (files : List UploadFile) (r s : PruneResult) (e : Option PruneError)
      → same_bytes f.path keep ≡ true
      → Prunes files r s e
      → Prunes (f ∷ files) r s e
  passes f files r s e same h = record {
    evicted = h.evicted;
    left = h.left;
    oldest_first = rw same h.oldest_first;
    gone = h.gone;
    remaining = h.remaining;
    removed = h.removed;
    counted = h.counted;
    needed = h.needed;
    under_cap = h.under_cap;
    over = h.over;
    refused = h.refused;
  }

  fails :
      (f : UploadFile) (files : List UploadFile) (r : PruneResult)
      → same_bytes f.path keep ≡ false
      → remove f.path ≡ failed
      → Prunes (f ∷ files) r r (some remove_file)
  fails f files r other refusal = record {
    evicted = [];
    left = f ∷ evictable keep files;
    oldest_first = rw other refl;
    gone = sym (append-nil r.gone);
    remaining = omega arith;
    removed = omega arith;
    counted = omega arith;
    needed = tt;
    under_cap = λ e. cc;
    over = λ e. cc;
    refused = λ e. (f, evictable keep files, refl, refusal);
  }

  ends_over : (r : PruneResult) → max < r.remaining_bytes → Prunes [] r r (some over_cap)
  ends_over r h = record {
    evicted = [];
    left = [];
    oldest_first = refl;
    gone = sym (append-nil r.gone);
    remaining = omega arith;
    removed = omega arith;
    counted = omega arith;
    needed = tt;
    under_cap = λ e. cc;
    over = λ e. (refl, h);
    refused = λ e. cc;
  }

  Removal-cases : (x : Removal) → (x ≡ removed_now) ⊎ (x ≡ not_there) ⊎ (x ≡ failed)
  Removal-cases removed_now = inl refl
  Removal-cases not_there = inr (inl refl)
  Removal-cases failed = inr (inr refl)

  prune_files_lem :
      (files : List UploadFile) (r : PruneResult)
      → bytes_of files ≤ r.remaining_bytes
      → r.remaining_bytes + r.removed_bytes < 2 ^ 63
      → Prunes files r
          (prune_files remove max keep files r).0
          (prune_files remove max keep files r).1
  unfolding prune_files
  prune_files_lem [] r fits small = elim (Bool-cases (at_most r.remaining_bytes max)) [
    | inl e ↦ rw e (stops [] r (ground (arith, e, small)))
    | inr e ↦ rw e (ends_over r (ground (arith, e)))
  ]
  prune_files_lem (f ∷ files) r fits small =
      let rest =
        prune_files_lem files (take_off f r) (omega (arith, fits, small))
          (omega (arith, fits, small)) in
      let gone_too = λ (o : same_bytes f.path keep ≡ false) (over_max : max < r.remaining_bytes).
        removes f files r _ _ o over_max (omega (arith, fits)) small rest in
      elim (Bool-cases (at_most r.remaining_bytes max)) [
        | inl e ↦ rw (prune_files, e) (stops (f ∷ files) r (ground (arith, e, small)))
        | inr e ↦ elim (Bool-cases (same_bytes f.path keep)) [
          | inl k ↦
              rw (prune_files, e, k)
                (passes f files r _ _ k (prune_files_lem files r (omega (arith, fits)) small))
          | inr k ↦ elim (Removal-cases (remove f.path)) [
            | inl x ↦ rw (prune_files, e, k, x) (gone_too k (ground (arith, e)))
            | inr (inl x) ↦ rw (prune_files, e, k, x) (gone_too k (ground (arith, e)))
            | inr (inr x) ↦ rw (prune_files, e, k, x) (fails f files r k x)
          ]
        ]
      ]

evictable_others :
    (keep : Bytes) (files : List UploadFile)
    → All (λ f. same_bytes f.path keep ≡ false) (evictable keep files)
evictable_others keep [] = tt
evictable_others keep (f ∷ rest) = ground (arith, evictable_others keep rest)

All-front : (P : UploadFile → Type 0) (xs ys : List UploadFile) → All P (xs ++ ys) → All P xs
All-front P [] ys h = tt
All-front P (x ∷ xs) ys h = (h.0, All-front P xs ys h.1)

-- `PruneDir` under a positive bound, where no `Info` fails and the sizes sum to an int64. In the order of
-- age, which keeps the contents of the listing, the files other than the one to keep are the removed ones
-- and then the rest. Each was removed while more than the bound was left; the counts are those of the
-- removed files, and the remaining bytes are the others'. With no error no more than the bound is left;
-- the error for too much left comes only where every file but the one to keep was removed and more is
-- left; and the error of a removal only where `os.Remove` refused the next file.
pub prune_dir-Prunes :
    (remove : Bytes → Removal) (max : ℕ) (keep : Bytes) (entries : List DirEntry)
    → 0 < max
    → Readable entries
    → bytes_of (regulars entries) < 2 ^ 63
    → let files = regulars entries in
      let by_age = sort_by_age files in
      let (s, e) = prune_dir remove max keep (some entries) in
      Sorted by_age
      × ((w : UploadFile → ℕ) → total w by_age ≡ total w files)
      × All (λ f. same_bytes f.path keep ≡ false) s.gone
      × Prunes remove max keep by_age (start remove max keep (bytes_of files)) s e
unfolding prune_dir prune_scanned
prune_dir-Prunes remove max keep entries positive readable small =
    let files = regulars entries in
    let by_age = sort_by_age files in
    let sum = bytes_of files in
    let on : (max == 0) ≡ false = ground (arith, positive) in
    let read : scan entries 0 ≡ (bytes_of (regulars entries), regulars entries, none) =
      ground (arith, scan_lem entries 0 readable (omega (arith, small))) in
    let same = total-sort_by_age (λ f. f.size) files in
    let run =
      prune_files_lem remove max keep by_age (start remove max keep sum) (omega (arith, same))
        (omega (arith, small)) in
    let (s, e) = prune_dir remove max keep (some entries) in
    let result : Prunes remove max keep by_age (start remove max keep sum) s e =
      elim (Bool-cases (at_most sum max)) [
        | inl fits ↦
            rw (on, read, fits)
              (stops remove max keep by_age (start remove max keep sum)
                (ground (arith, fits, small)))
        | inr over ↦ rw (on, read, over) run
      ] in
    let others =
      subst (All (λ f. same_bytes f.path keep ≡ false)) result.oldest_first
        (evictable_others keep by_age) in
    (
      sort_by_age-Sorted files,
      λ w. total-sort_by_age w files,
      subst (All (λ f. same_bytes f.path keep ≡ false)) (sym result.gone)
          (All-front _ result.evicted result.left others),
      result,
    )
