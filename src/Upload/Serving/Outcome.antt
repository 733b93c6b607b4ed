-- ===== src/Upload/Serving/Outcome.antt =====
-- What a request leaves on the disk, whatever fails.
use quixiot.Prelude.{
  ℕ, ◌≤◌, ◌<◌, ◌≡◌, ◌≢◌, ◌⊎◌, inl, inr, refl, ap, true, false, not, ◌&&◌, List, [], ◌∷◌, Bytes,
  Option, none, some, take, is_empty, length, All, ltb, ◌==◌, if_elim, Bool-cases, arith, Result,
  ok, err,
}
use quixiot.Prelude.Int.{pos, ltb_ℤ}
use quixiot.Prelude.Strings.{same_bytes, same_bytes_iff}
use quixiot.Upload.{UploadFile, PruneError, NameError, sanitize_filename, prune_dir}
use quixiot.Upload.Keeping.{prune_dir-Spares}
use quixiot.Upload.Serving.{
  Handler, Disk, Request, Answers, Reply, refused, served, copy_body, clean_up, join, rename_onto,
  is_gone, without_gone, respond, store, copied, serve_named, serve_http,
}

-- A refusal that stored nothing: no file is touched, nobody is told of an upload, and no temporary file
-- is left behind where it could be removed.
pub record Untouched (a : Answers) (d : Disk) (t : Disk) (reply : Reply) : Type 0 where
  pub status : ℕ
  pub told : reply ≡ refused status
  pub is_error : (status ≡ 400) ⊎ (status ≡ 413) ⊎ (status ≡ 500)
  pub files : t.file ≡ d.file
  pub unstored : t.stored ≡ d.stored
  pub no_temp : a.temp_removed ≡ true → d.temp ≡ none → t.temp ≡ none

-- The body came whole, it fits, and it is the content of its target; every other file is as it was, or
-- is gone. The client and `OnStored` are told so, unless the pruning failed.
pub record Stored (hash : Bytes → Bytes) (h : Handler) (a : Answers) (r : Request) (target : Bytes)
    (d t : Disk) (reply : Reply) : Type 0 where
  pub whole : r.body_fails ≡ false
  pub fits : 0 < h.max_storage_bytes → length r.body ≤ h.max_storage_bytes
  pub content : t.file target ≡ some r.body
  pub others :
      (path : Bytes)
      → same_bytes target path ≡ false
      → (t.file path ≡ d.file path) ⊎ (t.file path ≡ none)
  pub no_temp : t.temp ≡ none
  pub told :
      ((reply ≡ served (record { bytes = length r.body; sha256 = hash r.body }))
        × (t.stored ≡ (record { bytes = length r.body; sha256 = hash r.body }) ∷ d.stored))
      ⊎ ((reply ≡ refused 500)
          × (t.stored ≡ d.stored)
          × (prune_dir a.remove h.max_storage_bytes target a.listing).1 ≢ none)

abbrev pub Outcome :
    (Bytes → Bytes) → Handler → Answers → Request → Bytes → Disk → Disk × Reply → Type 0
Outcome hash h a r target d x = Untouched a d x.0 x.1 ⊎ Stored hash h a r target d x.0 x.1

refuses :
    (a : Answers) (d : Disk) (status : ℕ)
    → (status ≡ 400) ⊎ (status ≡ 413) ⊎ (status ≡ 500)
    → Untouched a d d (refused status)
refuses a d status e = record {
  status = status;
  told = refl;
  is_error = e;
  files = refl;
  unstored = refl;
  no_temp = λ _ same. same;
}

-- A refusal behind the temporary file's creation.
cleans :
    (a : Answers) (d : Disk) (content : Bytes) (status : ℕ)
    → (status ≡ 400) ⊎ (status ≡ 413) ⊎ (status ≡ 500)
    → Untouched a d (clean_up a (record d { temp = some content })) (refused status)
unfolding clean_up
cleans a d content status e =
    if_elim (λ t. Untouched a d t (refused status)) a.temp_removed (record d { temp = none })
      (record d { temp = some content })
      (λ _. record {
        status = status;
        told = refl;
        is_error = e;
        files = refl;
        unstored = refl;
        no_temp = λ _ _. refl;
      })
      (λ kept. record {
        status = status;
        told = refl;
        is_error = e;
        files = refl;
        unstored = refl;
        no_temp = λ gone _. cc;
      })

same_bytes_refl : (path : Bytes) → same_bytes path path ≡ true
same_bytes_refl path = (same_bytes_iff path path).1 refl

is_gone-spared :
    (path : Bytes) (gone : List UploadFile)
    → All (λ f. same_bytes f.path path ≡ false) gone
    → is_gone path gone ≡ false
unfolding is_gone
is_gone-spared path [] h = refl
is_gone-spared path (f ∷ rest) h = ground (arith, h.0, is_gone-spared path rest h.1)

module _ (hash : Bytes → Bytes) (h : Handler) (a : Answers) (r : Request) (target : Bytes)
    (d : Disk) (whole : r.body_fails ≡ false)
    (fits : 0 < h.max_storage_bytes → length r.body ≤ h.max_storage_bytes) where
  -- What the last part tells, over files that are right.
  respond-Stored :
      (e : Option PruneError) (u : Disk)
      → (e ≢ none → (prune_dir a.remove h.max_storage_bytes target a.listing).1 ≢ none)
      → u.file target ≡ some r.body
      → ((path : Bytes)
          → same_bytes target path ≡ false
          → (u.file path ≡ d.file path) ⊎ (u.file path ≡ none))
      → u.temp ≡ none
      → u.stored ≡ d.stored
      → Stored hash h a r target d (respond hash r.body e u).0 (respond hash r.body e u).1
  unfolding respond
  respond-Stored none u failing content others no_temp stored = record {
    whole = whole;
    fits = fits;
    content = content;
    others = others;
    no_temp = no_temp;
    told =
        inl (refl, ap (λ l. (record { bytes = length r.body; sha256 = hash r.body }) ∷ l) stored);
  }
  respond-Stored (some e) u failing content others no_temp stored = record {
    whole = whole;
    fits = fits;
    content = content;
    others = others;
    no_temp = no_temp;
    told = inr (refl, stored, failing (λ x. cc));
  }

  store-Stored :
      (temp : Option Bytes)
      → let x = store hash h a target r.body (record d { temp = temp }) in
        Stored hash h a r target d x.0 x.1
  unfolding store rename_onto without_gone
  store-Stored temp =
      let spared = prune_dir-Spares a.remove h.max_storage_bytes target a.listing in
      let gone = (prune_dir a.remove h.max_storage_bytes target a.listing).0.gone in
      let e = (prune_dir a.remove h.max_storage_bytes target a.listing).1 in
      let u = rename_onto target r.body (record d { temp = temp }) in
      let here : (u.file target) ≡ some r.body = ground (arith, same_bytes_refl target) in
      if_elim (λ (x : Disk × Reply). Stored hash h a r target d x.0 x.1) (h.max_storage_bytes == 0)
        (respond hash r.body none u) (respond hash r.body e (without_gone gone u))
        (λ _.
          respond-Stored none u (λ x. absurd (x refl)) here (λ path o. inl (ground (arith, o))) refl
            refl)
        (λ _.
          respond-Stored e (without_gone gone u) (λ x. x)
            (ground (arith, is_gone-spared target gone spared, here)) (λ path o. ground (arith, o))
            refl refl)

copy_body_cases :
    (cap : ℕ) (r : Request)
    → ((copy_body cap r ≡ (r.body, none))
        × (r.body_fails ≡ false)
        × (0 < cap → length r.body ≤ cap))
      ⊎ ((content : Bytes) × (status : ℕ) × (copy_body cap r ≡ (content, some status))
          × ((status ≡ 400) ⊎ (status ≡ 413) ⊎ (status ≡ 500)))
unfolding copy_body
copy_body_cases cap r = elim (Bool-cases (ltb 0 cap && ltb cap (length r.body))) [
  | inl long ↦ inr (take cap r.body, 413, rw long refl, inr (inl refl))
  | inr short ↦ elim (Bool-cases r.body_fails) [
    | inl broken ↦ inr (r.body, 400, ground (arith, short, broken), inl refl)
    | inr whole ↦ inl (ground (arith, short, whole), whole, λ p. ground (arith, short))
  ]
]

module _ (hash : Bytes → Bytes) (h : Handler) (a : Answers) (r : Request) (d : Disk) where
  copied-Outcome :
      (target : Bytes)
      → Outcome hash h a r target d (copied hash h a target d (copy_body h.max_storage_bytes r))
  unfolding copied
  copied-Outcome target = elim (copy_body_cases h.max_storage_bytes r) [
    | inr (content, status, e, listed) ↦ rw e (inl (cleans a d content status listed))
    | inl (e, whole, fits) ↦ rw e (
        if_elim (Outcome hash h a r target d) (not a.temp_closed) _ _
          (λ _. inl (cleans a d r.body 500 (inr (inr refl))))
          (λ _.
            if_elim (Outcome hash h a r target d) (not a.renamed) _ _
              (λ _. inl (cleans a d r.body 500 (inr (inr refl))))
              (λ _. inr (store-Stored hash h a r target d whole fits (some r.body)))))
  ]

  serve_named-Outcome :
      (name : Result NameError (List ℕ))
      → Untouched a d (serve_named hash h a r d name).0 (serve_named hash h a r d name).1
        ⊎ ((safe : List ℕ) × (name ≡ ok safe)
            × Stored hash h a r
                (join h.dir safe)
                d
                (serve_named hash h a r d name).0
                (serve_named hash h a r d name).1)
  unfolding serve_named
  serve_named-Outcome (err e) = inl (refuses a d 400 (inl refl))
  serve_named-Outcome (ok safe) =
      if_elim
        (λ (x : Disk × Reply).
          Untouched a d x.0 x.1
          ⊎ ((s : List ℕ) × (◌≡◌ {A = Result NameError (List ℕ)} (ok safe) (ok s))
              × Stored hash h a r (join h.dir s) d x.0 x.1))
        (a.dir_made && a.temp_dir_made && a.temp_made) _ _
        (λ _. elim (copied-Outcome (join h.dir safe)) [
          | inl refusal ↦ inl refusal
          | inr stored ↦ inr (safe, refl, stored)
        ])
        (λ _. inl (refuses a d 500 (inr (inr refl))))

  -- However the calls of the file system and the body's reading end, a request either is refused with
  -- status 400, 413 or 500, touches no file, tells `OnStored` nothing, and leaves no temporary file that
  -- can be removed; or its body came whole and fits, and is now the content of the file of its sanitized
  -- name, every other file is as it was or gone, no temporary file is left, and `OnStored` and the client
  -- are told the body's length and hash, but for a pruning that failed, of which the client has status
  -- 500 and `OnStored` nothing.
  pub serve_http-Outcome :
      let (t, reply) = serve_http hash h a r d in
      Untouched a d t reply
      ⊎ ((safe : List ℕ) × (sanitize_filename r.name ≡ ok safe)
          × Stored hash h a r (join h.dir safe) d t reply)
  unfolding serve_http
  serve_http-Outcome =
      let P = λ (x : Disk × Reply).
        Untouched a d x.0 x.1
        ⊎ ((safe : List ℕ) × (sanitize_filename r.name ≡ ok safe)
            × Stored hash h a r (join h.dir safe) d x.0 x.1) in
      if_elim P (is_empty h.dir) _ _ (λ _. inl (refuses a d 500 (inr (inr refl))))
        (λ _.
          if_elim P (ltb 0 h.max_storage_bytes && ltb_ℤ (pos h.max_storage_bytes) r.content_length)
            _ _ (λ _. inl (refuses a d 413 (inr (inl refl))))
            (λ _. serve_named-Outcome (sanitize_filename r.name)))

  store_served :
      (target : Bytes) (u : Disk)
      → (0 < h.max_storage_bytes
          → (prune_dir a.remove h.max_storage_bytes target a.listing).1 ≡ none)
      → (store hash h a target r.body u).1
        ≡ served (record { bytes = length r.body; sha256 = hash r.body })
  unfolding store respond
  store_served target u pruned =
      let P = λ (x : Disk × Reply).
        x.1 ≡ served (record { bytes = length r.body; sha256 = hash r.body }) in
      if_elim P (h.max_storage_bytes == 0) _ _ (λ _. refl)
        (λ more. rw (pruned (ground (arith, more)), respond) refl)

  -- Where nothing fails, the client is told what was stored.
  pub serve_http_served :
      (safe : List ℕ)
      → is_empty h.dir ≡ false
      → sanitize_filename r.name ≡ ok safe
      → r.content_length ≡ pos (length r.body)
      → (0 < h.max_storage_bytes → length r.body ≤ h.max_storage_bytes)
      → r.body_fails ≡ false
      → (a.dir_made && a.temp_dir_made && a.temp_made) ≡ true
      → a.temp_closed ≡ true
      → a.renamed ≡ true
      → (0 < h.max_storage_bytes
          → (prune_dir a.remove h.max_storage_bytes (join h.dir safe) a.listing).1 ≡ none)
      → (serve_http hash h a r d).1
        ≡ served (record { bytes = length r.body; sha256 = hash r.body })
  unfolding serve_http serve_named copied copy_body store respond
  serve_http_served safe dir name sized fits whole made closed renamed pruned =
      let small : (ltb 0 h.max_storage_bytes && ltb_ℤ (pos h.max_storage_bytes) r.content_length)
          ≡ false =
        ground (arith, sized) in
      let short : copy_body h.max_storage_bytes r ≡ (r.body, none) = ground (arith, whole) in
      let kept = record d { temp = some r.body } in
      simp (dir, small, name, serve_named, made, short, closed, renamed)
        (store_served (join h.dir safe) kept pruned)
