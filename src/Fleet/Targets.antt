-- ===== src/Fleet/Targets.antt =====
-- The targets file of a run, and the children that it starts.
use quixiot.Prelude.{
  ◌≡◌, refl, sym, ◌∙◌, ◌⊎◌, inl, inr, Bool, true, false, not, ◌&&◌, List, [], ◌∷◌, ◌++◌, Bytes,
  none, some, is_empty, arith, if_elim, Result, ok, err, subst,
}
use quixiot.Prelude.Strings.{codes, same_bytes, same_bytes_iff}
use quixiot.Fleet.{
  FleetConfig, FleetError, Child, children, entries_of, listed, Files, WriteAnswers,
  write_targets_file, Events, launch, published, checked_run, check_fleet, run_fleet,
  child_log_dir_failed,
}

-- The children started, the latest first, in front of the others.
abbrev pub rev_onto : List Child → List Child → List Child
rev_onto [] ys = ys
rev_onto (x ∷ xs) ys = rev_onto xs (x ∷ ys)

launch_lem :
    (e : Events) (started cs : List Child)
    → (rest : List Child) × (rev_onto (launch e started cs).0 rest ≡ rev_onto started cs)
unfolding launch
launch_lem e started [] = ([], refl)
launch_lem e started (c ∷ cs) =
    if_elim
      (λ (x : List Child × Result FleetError (Unit {0})).
        (rest : List Child) × (rev_onto x.0 rest ≡ rev_onto started (c ∷ cs)))
      (not (e.starts c.id)) _ _ (λ _. (c ∷ cs, refl))
      (λ _.
        if_elim
          (λ (x : List Child × Result FleetError (Unit {0})).
            (rest : List Child) × (rev_onto x.0 rest ≡ rev_onto started (c ∷ cs)))
          (not (is_empty cs) && e.stopped_behind c.id) _ _ (λ _. (cs, refl))
          (λ _. launch_lem e (c ∷ started) cs))

not_longer : (xs : Bytes) → same_bytes xs (xs ++ codes ".tmp") ≡ false
unfolding same_bytes
not_longer [] = refl
not_longer (x ∷ xs) = ground (arith, not_longer xs)

not_shorter : (xs : Bytes) → same_bytes (xs ++ codes ".tmp") xs ≡ false
unfolding same_bytes
not_shorter [] = refl
not_shorter (x ∷ xs) = ground (arith, not_shorter xs)

abbrev pub all_fine : WriteAnswers → Bool
all_fine a = a.dir_made && a.written && a.renamed

-- A writing of the targets: done as a whole, or an error with the file as it was.
pub write_targets_file_atomic :
    (a : WriteAnswers) (path : Bytes) (cs : List Child) (d : Files)
    → is_empty path ≡ false
    → let (g, r) = write_targets_file a path cs d in
      ((all_fine a ≡ true)
        × (r ≡ ok tt)
        × (g path ≡ some (listed (entries_of cs)))
        × (g (path ++ codes ".tmp") ≡ none))
      ⊎ ((all_fine a ≡ false) × (e : FleetError) × (r ≡ err e) × (g path ≡ d path))
unfolding write_targets_file
write_targets_file_atomic a path cs d h = ground (
  arith,
  h,
  not_longer path,
  not_shorter path,
  same_bytes_iff path path,
  same_bytes_iff (path ++ codes ".tmp") (path ++ codes ".tmp"),
)

-- Nothing was published: an error before that, and no child.
abbrev pub Unpublished :
    FleetConfig → Files → Files × List Child × Result FleetError (Unit {0}) → Type 0
Unpublished f d (g, started, result) =
    (g f.targets_file ≡ d f.targets_file) × (started ≡ []) × (e : FleetError) × (result ≡ err e)

-- The targets were published, and children started, from the first on; at the end the file lists nothing, or,
-- where that could not be written, still all children.
abbrev pub Published :
    WriteAnswers → FleetConfig → Files × List Child × Result FleetError (Unit {0}) → Type 0
Published last f (g, started, result) =
    ((rest : List Child) × (rev_onto started rest ≡ children f))
    × (((all_fine last ≡ true) × (g f.targets_file ≡ some (listed [])))
        ⊎ ((all_fine last ≡ false) × (g f.targets_file ≡ some (listed (entries_of (children f))))))

module _ (e : Events) (first last : WriteAnswers) (f : FleetConfig)
    (named : is_empty f.targets_file ≡ false) where
  published_lem :
      (d g : Files)
      → g f.targets_file ≡ some (listed (entries_of (children f)))
      → Published last f (published e last f (g, ok tt))
  unfolding published
  published_lem d g wrote = (
    launch_lem e [] (children f),
    elim (write_targets_file_atomic last f.targets_file [] g named) [
      | inl (fine, _, done, _) ↦ inl (fine, done)
      | inr (bad, _, _, same) ↦ inr (bad, same ∙ wrote)
    ],
  )

  abbrev Ends : Files → Files × List Child × Result FleetError (Unit {0}) → Type 0
  Ends d x = Unpublished f d x ⊎ Published last f x

  published-Ends :
      (d : Files)
      → Ends d (published e last f (write_targets_file first f.targets_file (children f) d))
  unfolding published
  published-Ends d =
      let g = (write_targets_file first f.targets_file (children f) d).0 in
      elim (write_targets_file_atomic first f.targets_file (children f) d named) [
        | inl (_, fine, wrote, _) ↦
            subst (λ r. Ends d (published e last f (g, r))) (sym fine)
              (inr (published_lem d g wrote))
        | inr (_, failure, failed, same) ↦
            subst (λ r. Ends d (published e last f (g, r))) (sym failed)
              (inl (same, refl, failure, refl))
      ]

  checked_run-Ends :
      (d : Files) (r : Result FleetError (Unit {0})) → Ends d (checked_run e first last f d r)
  unfolding checked_run
  checked_run-Ends d (err failure) = inl (refl, refl, failure, refl)
  checked_run-Ends d (ok u) =
      if_elim (Ends d) (not (is_empty f.child_log_dir) && not e.log_dir_made) _ _
        (λ _. inl (refl, refl, child_log_dir_failed, refl)) (λ _. published-Ends d)

  -- Whatever the run of a fleet with a targets file meets: either it ends in an error before it has published
  -- its targets, no child was started, and the targets file is as it was; or the children started are the first
  -- ones of the fleet, and at the end the targets file is an empty list, or, just if that could not be written,
  -- the list of all children.
  pub run_fleet-Ends :
      (d : Files)
      → Unpublished f d (run_fleet e first last f d) ⊎ Published last f (run_fleet e first last f d)
  unfolding run_fleet
  run_fleet-Ends d = checked_run-Ends d (check_fleet f)
