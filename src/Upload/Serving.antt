-- ===== src/Upload/Serving.antt =====
-- internal/upload/upload.go: `ServeHTTP`. The files of the directory and the temporary file are the state;
-- what the file system and the request's body respond is given. The directory is clean, so that a path is
-- the directory, a slash and the name.
pub mod Outcome
mod Tests
use quixiot.Prelude.{
  ℕ, ◌+◌, Bool, true, false, not, ◌&&◌, List, [], ◌∷◌, ◌++◌, Bytes, Option, none, some, is_empty,
  length, take, ltb, ◌==◌, if◌then◌else◌, Result, ok, err,
}
use quixiot.Prelude.Int.{ℤ, pos, ltb_ℤ}
use quixiot.Prelude.Strings.{same_bytes}
use quixiot.Upload.{
  UploadFile, DirEntry, Removal, PruneResult, PruneError, sanitize_filename, prune_dir, NameError,
}

-- `max_storage_bytes` is positive, or 0 for no bound.
pub record Handler : Type 0 where
  pub dir : Bytes
  pub max_storage_bytes : ℕ

-- `Response` without its duration.
pub record Response : Type 0 where
  pub bytes : ℕ
  pub sha256 : Bytes

-- The contents of the files by their paths, that of this request's temporary file, and the calls of
-- `OnStored`, the latest first.
pub record Disk : Type 0 where
  pub file : Bytes → Option Bytes
  pub temp : Option Bytes
  pub stored : List Response

-- A request: its path's name, its `ContentLength`, and the bytes of its body. `body_fails` tells if the
-- body breaks off behind them, or if a write to the temporary file fails there.
pub record Request : Type 0 where
  pub name : List ℕ
  pub content_length : ℤ
  pub body : Bytes
  pub body_fails : Bool

-- What the file system answers: if each call succeeds, the listing of the directory behind the rename,
-- and what `os.Remove` does with each path.
pub record Answers : Type 0 where
  pub dir_made : Bool
  pub temp_dir_made : Bool
  pub temp_made : Bool
  pub temp_closed : Bool
  pub renamed : Bool
  pub temp_removed : Bool
  pub listing : Option (List DirEntry)
  pub remove : Bytes → Removal

-- What the client is told. `refused` has the status of `http.Error`.
pub data Reply : Type 0 where
  refused : ℕ → Reply
  served : Response → Reply

-- `io.Copy` from `http.MaxBytesReader`: the bytes in the temporary file, and the status if it failed.
pub copy_body : ℕ → Request → Bytes × Option ℕ
copy_body cap r =
    if ltb 0 cap && ltb cap (length r.body)
    then (take cap r.body, some 413)
    else (r.body, if r.body_fails then some 400 else none)

-- The deferred function, where `cleanupTemp` still holds.
pub clean_up : Answers → Disk → Disk
clean_up a d = if a.temp_removed then record d { temp = none } else d

abbrev pub join : Bytes → Bytes → Bytes
join dir name = dir ++ (47 ∷ name)

-- `os.Rename` of the temporary file onto the target.
pub rename_onto : Bytes → Bytes → Disk → Disk
rename_onto target content d = record d {
  file = λ path. if same_bytes target path then some content else d.file path;
  temp = none;
}

-- What `PruneDir` removed.
is_gone : Bytes → List UploadFile → Bool
is_gone path [] = false
is_gone path (f ∷ rest) = if same_bytes f.path path then true else is_gone path rest

pub without_gone : List UploadFile → Disk → Disk
unfolding is_gone
without_gone gone d = record d { file = λ path. if is_gone path gone then none else d.file path }

module _ (hash : Bytes → Bytes) where
  -- Behind the rename and the pruning.
  respond : Bytes → Option PruneError → Disk → Disk × Reply
  respond content (some e) d = (d, refused 500)
  respond content none d =
      let response : Response = record { bytes = length content; sha256 = hash content } in
      (record d { stored = response ∷ d.stored }, served response)

  store : Handler → Answers → Bytes → Bytes → Disk → Disk × Reply
  unfolding respond
  store h a target content d =
      let e = rename_onto target content d in
      let pruned = prune_dir a.remove h.max_storage_bytes target a.listing in
      if h.max_storage_bytes == 0
      then respond content none e
      else respond content pruned.1 (without_gone pruned.0.gone e)

  -- Behind the copy of the body.
  copied : Handler → Answers → Bytes → Disk → Bytes × Option ℕ → Disk × Reply
  unfolding store clean_up
  copied h a target d (content, some status) =
      (clean_up a (record d { temp = some content }), refused status)
  copied h a target d (content, none) =
      let e = record d { temp = some content } in
      if not a.temp_closed
      then (clean_up a e, refused 500)
      else if not a.renamed
      then (clean_up a e, refused 500)
      else store h a target content e

  serve_named : Handler → Answers → Request → Disk → Result NameError (List ℕ) → Disk × Reply
  unfolding copied copy_body
  serve_named h a r d (err e) = (d, refused 400)
  serve_named h a r d (ok name) =
      if a.dir_made && a.temp_dir_made && a.temp_made
      then copied h a (join h.dir name) d (copy_body h.max_storage_bytes r)
      else (d, refused 500)

  -- `ServeHTTP`
  pub serve_http : Handler → Answers → Request → Disk → Disk × Reply
  unfolding serve_named
  serve_http h a r d =
      if is_empty h.dir
      then (d, refused 500)
      else if ltb 0 h.max_storage_bytes && ltb_ℤ (pos h.max_storage_bytes) r.content_length
      then (d, refused 413)
      else serve_named h a r d (sanitize_filename r.name)
