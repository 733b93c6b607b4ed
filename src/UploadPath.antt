-- ===== src/UploadPath.antt =====
-- internal/client/client.go (`UploadDeterministic`) and internal/roles/uploader.go (`UploadOnce` and the
-- checks of `Run`): a client's side of an upload. How a request is answered is the argument `post`, over a
-- state of its own; `none` is an error of the transport. The answer's JSON is its fields.
pub mod Arrival
pub mod OverHttp
mod Tests
use quixiot.Prelude.{
  ℕ, zero, suc, [], ◌∷◌, ◌+◌, Bool, true, false, not, List, Bytes, Option, none, some, is_empty,
  ◌==◌, if◌then◌else◌, Result, ok, err, ◌>>=◌, ◌>>◌, guard,
}
use quixiot.Prelude.Int.{ℤ, pos, negsuc, pos_part, leb_ℤ}
use quixiot.Prelude.Strings.{same_bytes}
use quixiot.UploadBody.{new_deterministic_reader, copy}
use quixiot.Roles.{upload_name}
use quixiot.Upload.Serving.{Response, Request, Reply, refused, served}

pub data ClientError : Type 0 where
  no_name negative_size transport bytes_mismatch sha_mismatch : ClientError
  unexpected_status : ℕ → ClientError

-- `deterministicSHA256`, with the buffers that `io.Copy` comes to use.
pub deterministic_sha256 : (Bytes → Bytes) → (ℕ → ℕ) → List ℕ → ℕ → Bytes
deterministic_sha256 hash draws buffers size =
    hash (copy draws buffers (new_deterministic_reader size)).0

-- The request, whose body the transport reads with other buffers.
pub upload_request : (ℕ → ℕ) → List ℕ → List ℕ → ℕ → Request
upload_request draws buffers name size =
    let body = copy draws buffers (new_deterministic_reader size) in
    record { name = name; content_length = pos size; body = body.0; body_fails = not body.1 }

-- The status, and the checks of what the server says it has stored.
pub check_reply : ℕ → Bytes → Option Reply → Result ClientError Response
check_reply size expected none = err transport
check_reply size expected (some (refused status)) = err (unexpected_status status)
check_reply size expected (some (served r)) = do
  guard (r.bytes == size) bytes_mismatch
  guard (same_bytes r.sha256 expected) sha_mismatch
  ok r

-- What `Run` asks of its fields before the first upload; the interval and the size may be negative.
pub record Uploader : Type 0 where
  pub client : Bool
  pub client_id : List ℕ
  pub interval : ℤ
  pub size : ℤ

pub data UploaderError : Type 0 where
  no_client no_client_id bad_interval bad_size : UploaderError

unfoldable pub check_uploader : Uploader → Result UploaderError (Unit {0})
check_uploader u = do
  guard u.client no_client
  guard (not (is_empty u.client_id)) no_client_id
  guard (leb_ℤ (pos 1) u.interval) bad_interval
  guard (leb_ℤ (pos 0) u.size) bad_size

-- `hash` is SHA-256 in hexadecimal, `source` the sequence of bytes of math/rand from a seed on, `hashing`
-- and `sending` the sizes of the buffers.
module _ {S : Type 0} (hash : Bytes → Bytes) (source : ℕ → ℕ → ℕ) (hashing sending : List ℕ)
    (post : Request → S → S × Option Reply) where
  -- `UploadDeterministic`
  pub upload_deterministic : List ℕ → ℤ → ℕ → S → S × Result ClientError Response
  unfolding deterministic_sha256 upload_request check_reply
  upload_deterministic name size seed s =
      let n = pos_part size in
      let expected = deterministic_sha256 hash (source seed) hashing n in
      let (after, reply) = post (upload_request (source seed) sending name n) s in
      if is_empty name
      then (s, err no_name)
      else if not (leb_ℤ (pos 0) size)
      then (s, err negative_size)
      else (after, check_reply n expected reply)

  -- `UploadOnce`
  pub upload_once : Uploader → ℕ → S → S × Result ClientError Response
  unfolding upload_deterministic
  upload_once u seq s = upload_deterministic (upload_name u.client_id seq) u.size (seq + 1) s

  -- The uploads of `Run`, one at first and one for each tick, whose errors are logged only.
  uploads : Uploader → ℕ → ℕ → S → S × List (Result ClientError Response)
  unfolding upload_once
  uploads u zero seq s = (s, [])
  uploads u (suc ticks) seq s =
      let (t, result) = upload_once u seq s in
      let (last, results) = uploads u ticks (seq + 1) t in (last, result ∷ results)

  -- `Run`, up to its end after this many ticks.
  pub run_uploader :
      Uploader → ℕ → S → S × Result UploaderError (List (Result ClientError Response))
  unfolding uploads check_uploader
  run_uploader u ticks s =
      let (t, results) = uploads u (suc ticks) 0 s in
      elim (check_uploader u) [ err e ↦ (s, err e) | ok _ ↦ (t, ok results) ]
