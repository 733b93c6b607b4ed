-- ===== src/UploadPath/Arrival.antt =====
-- A client's uploads at the server, whatever fails there and where nothing does.
use quixiot.Prelude.{
  ℕ, ◌+◌, ◌<◌, ◌≤◌, ◌≡◌, ◌∷◌, inl, inr, refl, sym, ap, subst, ◌∙◌, true, false, ◌&&◌, List, Bytes,
  Option, none, some, is_empty, length, arith, ok,
}
use quixiot.Prelude.Int.{pos, leb_ℤ}
use quixiot.Prelude.Strings.{same_bytes_iff}
use quixiot.UploadBody.{new_deterministic_reader, drawn}
use quixiot.UploadBody.Whole.{room, copy_whole, length-drawn}
use quixiot.Roles.{upload_name}
use quixiot.Roles.UploadNames.{is_empty-upload_name, sanitize_filename-upload_name}
use quixiot.Upload.{prune_dir}
use quixiot.Upload.Serving.{
  Handler, Response, Disk, Request, Answers, Reply, refused, served, join, serve_http,
}
use quixiot.Upload.Serving.Outcome.{Stored, serve_http-Outcome, serve_http_served}
use quixiot.UploadPath.{
  deterministic_sha256, upload_request, check_reply, Uploader, upload_deterministic, upload_once,
}

-- The server at the other end of the connection.
abbrev pub answered_by : (Bytes → Bytes) → Handler → Answers → Request → Disk → Disk × Option Reply
answered_by hash h a r d = let (t, reply) = serve_http hash h a r d in (t, some reply)

-- The client takes only an answer that says what it sent.
check_reply_ok :
    (size : ℕ) (expected : Bytes) (reply : Option Reply) (r : Response)
    → check_reply size expected reply ≡ ok r
    → (reply ≡ some (served r)) × (r.bytes ≡ size) × (r.sha256 ≡ expected)
unfolding check_reply
check_reply_ok size expected none r e = cc
check_reply_ok size expected (some (refused status)) r e = cc
check_reply_ok size expected (some (served s)) r e =
    ground (arith, same_bytes_iff s.sha256 expected)

check_reply_served :
    (size : ℕ) (expected : Bytes)
    → check_reply size expected (some (served (record { bytes = size; sha256 = expected })))
      ≡ ok (record { bytes = size; sha256 = expected })
unfolding check_reply
check_reply_served size expected = ground (arith, same_bytes_iff expected expected)

-- The body stands in its file, no temporary file is left, and `OnStored` and the client know of it.
pub record Arrived (hash : Bytes → Bytes) (h : Handler) (name : List ℕ) (body : Bytes) (d t : Disk)
    (r : Response) : Type 0 where
  pub content : t.file (join h.dir name) ≡ some body
  pub fits : 0 < h.max_storage_bytes → length body ≤ h.max_storage_bytes
  pub no_temp : t.temp ≡ none
  pub recorded : t.stored ≡ r ∷ d.stored
  pub bytes : r.bytes ≡ length body
  pub sha256 : r.sha256 ≡ hash body

module _ (hash : Bytes → Bytes) (source : ℕ → ℕ → ℕ) (hashing sending : List ℕ) (h : Handler)
    (a : Answers) (u : Uploader) (size seq : ℕ) (sized : u.size ≡ pos size)
    (some_hashing : is_empty hashing ≡ false) (some_sending : is_empty sending ≡ false)
    (hashing_fits : size ≤ room hashing) (sending_fits : size ≤ room sending) where
  abbrev name : List ℕ
  name = upload_name u.client_id seq

  abbrev body : Bytes
  body = drawn (source (seq + 1)) 0 size

  request_lem :
      upload_request (source (seq + 1)) sending name size
      ≡ record { name = name; content_length = pos size; body = body; body_fails = false }
  unfolding upload_request
  request_lem =
      let sent =
        copy_whole (source (seq + 1)) sending hashing (new_deterministic_reader size) some_sending
          some_hashing sending_fits hashing_fits in
      rw sent.0 refl

  hash_lem : deterministic_sha256 hash (source (seq + 1)) hashing size ≡ hash body
  unfolding deterministic_sha256
  hash_lem =
      let hashed =
        copy_whole (source (seq + 1)) hashing sending (new_deterministic_reader size) some_hashing
          some_sending hashing_fits sending_fits in
      rw hashed.0 refl

  abbrev sent : Request
  sent = record { name = name; content_length = pos size; body = body; body_fails = false }

  upload_once_lem :
      (d : Disk)
      → upload_once hash source hashing sending (answered_by hash h a) u seq d ≡ (
        (serve_http hash h a sent d).0,
        check_reply size (hash body) (some (serve_http hash h a sent d).1),
      )
  unfolding upload_once upload_deterministic
  upload_once_lem d =
      let fine : leb_ℤ (pos 0) (pos size) ≡ true = ground arith in
      simp (sized, is_empty-upload_name, fine, request_lem, hash_lem)

  Stored-arrives :
      (d t : Disk) (reply : Reply) (r : Response)
      → Stored hash h a sent (join h.dir name) d t reply
      → reply ≡ served r
      → Arrived hash h name body d t r
  Stored-arrives d t reply r s e = elim s.told [
    | inr (no_reply, _, _) ↦ absurd (ground (arith, no_reply, e))
    | inl (told, recorded) ↦
        let same : record { bytes = length body; sha256 = hash body } ≡ r =
          ground (arith, told, e) in
        record {
          content = s.content;
          fits = s.fits;
          no_temp = s.no_temp;
          recorded = recorded ∙ ap (λ x. x ∷ d.stored) same;
          bytes = sym (ap (λ (x : Response). x.bytes) same);
          sha256 = sym (ap (λ (x : Response). x.sha256) same);
        }
  ]

  served_arrives :
      (d : Disk) (r : Response)
      → (serve_http hash h a sent d).1 ≡ served r
      → Arrived hash h name body d (serve_http hash h a sent d).0 r
  served_arrives d r e = elim (serve_http-Outcome hash h a sent d) [
    | inl refusal ↦ absurd (ground (arith, refusal.told, e))
    | inr (safe, named, stored) ↦
        let same : safe ≡ name =
          ground (arith, named, sanitize_filename-upload_name u.client_id seq) in
        Stored-arrives d (serve_http hash h a sent d).0 (serve_http hash h a sent d).1 r
          (subst
            (λ n.
              Stored hash h a sent (join h.dir n) d (serve_http hash h a sent d).0
                (serve_http hash h a sent d).1)
            same stored)
          e
  ]

  -- Whatever fails at the server, an upload that `UploadOnce` takes for done has arrived: the file of its
  -- name has the body, as many bytes of the generator as the size says; that is within the server's bound,
  -- the server has no temporary file of it left and told `OnStored` of it, and the client has its size and
  -- hash. This is for a size that is not negative, and buffers, at least one on each side, that have room
  -- for the body.
  pub upload_once_sound :
      (d : Disk) (r : Response)
      → (upload_once hash source hashing sending (answered_by hash h a) u seq d).1 ≡ ok r
      → Arrived hash h name body d
          (upload_once hash source hashing sending (answered_by hash h a) u seq d).0
          r
        × (length body ≡ size)
  upload_once_sound d r e =
      let run = upload_once_lem d in
      let reply = (serve_http hash h a sent d).1 in
      let (told, _, _) =
        check_reply_ok size (hash body) (some reply) r (sym (ap (λ x. x.1) run) ∙ e) in
      let reply_is : reply ≡ served r = ground (arith, told) in
      (
        subst (λ t. Arrived hash h name body d t r) (sym (ap (λ x. x.0) run))
            (served_arrives d r reply_is),
        length-drawn (source (seq + 1)) 0 size,
      )

  -- Where no call at the server fails, the upload fits its bound and the pruning finds room for it, the
  -- upload arrives, and `UploadOnce` succeeds with its size and hash.
  pub upload_once_arrives :
      (d : Disk)
      → is_empty h.dir ≡ false
      → (0 < h.max_storage_bytes → size ≤ h.max_storage_bytes)
      → (a.dir_made && a.temp_dir_made && a.temp_made) ≡ true
      → a.temp_closed ≡ true
      → a.renamed ≡ true
      → (0 < h.max_storage_bytes
          → (prune_dir a.remove h.max_storage_bytes (join h.dir name) a.listing).1 ≡ none)
      → let (t, result) = upload_once hash source hashing sending (answered_by hash h a) u seq d in
        (result ≡ ok (record { bytes = size; sha256 = hash body }))
        × Arrived hash h name body d t (record { bytes = size; sha256 = hash body })
  upload_once_arrives d dir fits made closed renamed pruned =
      let run = upload_once_lem d in
      let long = length-drawn (source (seq + 1)) 0 size in
      let answer : Response = record { bytes = size; sha256 = hash body } in
      let told : (serve_http hash h a sent d).1 ≡ served answer =
        serve_http_served hash h a sent d name dir (sanitize_filename-upload_name u.client_id seq)
          (ap pos (sym long)) (λ p. subst (λ n. n ≤ h.max_storage_bytes) (sym long) (fits p)) refl
          made closed renamed pruned
        ∙ ap (λ n. served (record { bytes = n; sha256 = hash body })) long in
      rw run (rw told (check_reply_served size (hash body), served_arrives d answer told))
