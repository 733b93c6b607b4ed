-- ===== src/Upload/Keeping.antt =====
-- `PruneDir` never removes the file to keep, whatever the file system answers.
use quixiot.Prelude.{
  ℕ, ◌≡◌, false, List, [], ◌∷◌, Bytes, Option, none, some, All, All-append, arith, if_elim, inl,
  inr, ◌⊎◌, ◌==◌,
}
use quixiot.Prelude.Strings.{same_bytes}
use quixiot.Upload.{
  UploadFile, DirEntry, Removal, PruneResult, PruneError, at_most, take_off, prune_files,
  prune_scanned, prune_dir, scan, sort_by_age, start,
}

module _ (remove : Bytes → Removal) (max : ℕ) (keep : Bytes) where
  abbrev pub Spares : PruneResult → Type 0
  Spares r = All (λ f. same_bytes f.path keep ≡ false) r.gone

  -- One file of the loop: it is passed by, it goes, or the loop ends at it.
  prune_files_step :
      (f : UploadFile) (files : List UploadFile) (r : PruneResult)
      → (prune_files remove max keep (f ∷ files) r ≡ prune_files remove max keep files r)
        ⊎ ((same_bytes f.path keep ≡ false)
            × (prune_files remove max keep (f ∷ files) r
                ≡ prune_files remove max keep files (take_off f r)))
        ⊎ ((prune_files remove max keep (f ∷ files) r).0 ≡ r)
  unfolding prune_files
  prune_files_step f files r = ground arith

  prune_files-Spares :
      (files : List UploadFile) (r : PruneResult)
      → Spares r
      → Spares (prune_files remove max keep files r).0
  unfolding prune_files
  prune_files-Spares [] r h = h
  prune_files-Spares (f ∷ files) r h = elim (prune_files_step f files r) [
    | inl e ↦ rw e (prune_files-Spares files r h)
    | inr (inl (o, e)) ↦
        rw e (prune_files-Spares files (take_off f r) (All-append _ r.gone (f ∷ []) h (o, tt)))
    | inr (inr e) ↦ rw e h
  ]

  prune_scanned-Spares :
      (scanned : ℕ × List UploadFile × Option PruneError)
      → Spares (prune_scanned remove max keep scanned).0
  unfolding prune_scanned
  prune_scanned-Spares (sum, files, some e) = tt
  prune_scanned-Spares (sum, files, none) =
      if_elim (λ (x : PruneResult × Option PruneError). Spares x.0) (at_most sum max)
        (start remove max keep sum, none)
        (prune_files remove max keep (sort_by_age files) (start remove max keep sum)) (λ _. tt)
        (λ _. prune_files-Spares (sort_by_age files) (start remove max keep sum) tt)

  pub prune_dir-Spares :
      (listing : Option (List DirEntry)) → Spares (prune_dir remove max keep listing).0
  unfolding prune_dir
  prune_dir-Spares none = ground arith
  prune_dir-Spares (some entries) =
      if_elim (λ (x : PruneResult × Option PruneError). Spares x.0) (max == 0)
        (start remove max keep 0, none) (prune_scanned remove max keep (scan entries 0)) (λ _. tt)
        (λ _. prune_scanned-Spares (scan entries 0))
