-- ===== src/UploadPath/OverHttp.antt =====
-- internal/client/client.go (`UploadDeterministic`): the request of an upload on its way through the routes of
-- internal/server/server.go.
use quixiot.Prelude.{
  ℕ, ◌+◌, ◌<◌, ◌≡◌, refl, ap, true, not, List, [], ◌++◌, Bytes, Option, none, some, is_empty, All,
  All-map, if◌then◌else◌, Result, err, arith,
}
use quixiot.Prelude.Int.{pos, pos_part, leb_ℤ}
use quixiot.Prelude.Strings.{codes}
use quixiot.Roles.{upload_name}
use quixiot.Roles.UploadNames.{upload_name-IsSafeName}
use quixiot.Upload.{is_safe_rune}
use quixiot.Upload.Names.{IsSafeName}
use quixiot.Upload.Serving.{Disk, Answers, Response, Request, Reply, refused}
use quixiot.Server.Paths.{path_escape}
use quixiot.Server.Paths.Segments.{IsSegment}
use quixiot.Server.Routes.{Server, HttpRequest, Answer, post, told, upload_reply, serve_request}
use quixiot.Server.Routes.Matching.{serve_request-files}
use quixiot.UploadPath.{
  ClientError, no_name, negative_size, deterministic_sha256, upload_request, check_reply, Uploader,
  upload_deterministic, upload_once,
}
use quixiot.UploadPath.Arrival.{answered_by}

-- UTF-8, of which only this is used: an ASCII text is its runes.
pub record Utf8 : Type 0 where
  pub encode : List ℕ → Bytes
  pub decode : Bytes → List ℕ
  pub encode_ascii : (xs : List ℕ) → All (λ r. r < 128) xs → encode xs ≡ xs
  pub decode_ascii : (xs : List ℕ) → All (λ r. r < 128) xs → decode xs ≡ xs

-- The request of `UploadDeterministic`, under the path of the base URL.
unfoldable pub post_request : Utf8 → Bytes → Request → HttpRequest
post_request utf8 base r = record {
  method = post;
  path = base ++ (codes "/files/" ++ path_escape (utf8.encode r.name));
  content_length = r.content_length;
  body = r.body;
  body_fails = r.body_fails;
}

-- Any answer but that of an upload or a status is an error to the client, as one of the transport is.
pub as_reply : Option Answer → Option Reply
as_reply (some (upload_reply r)) = some r
as_reply (some (told status)) = some (refused status)
as_reply _ = none

-- How a request is answered over HTTP.
pub post_over :
    {S : Type 0}
    → Utf8
    → Bytes
    → (HttpRequest → S → S × Option Answer)
    → Request
    → S
    → S × Option Reply
unfolding as_reply
post_over utf8 base send r s = let (t, a) = send (post_request utf8 base r) s in (t, as_reply a)

safe_is_ascii : (r : ℕ) → is_safe_rune r ≡ true → r < 128
unfolding is_safe_rune
safe_is_ascii r h = ground (arith, h)

module _ (utf8 : Utf8) (hash : Bytes → Bytes) (s : Server) (a : Answers) (now : ℕ) where
  abbrev pub http_server : HttpRequest → Disk → Disk × Option Answer
  http_server r d = let (t, answer) = serve_request utf8.decode hash s a now r d in (t, some answer)

  post_over_served :
      (r : Request) (d : Disk)
      → IsSafeName r.name
      → post_over utf8 [] http_server r d ≡ answered_by hash s.uploads a r d
  unfolding post_over post_request
  post_over_served r d (safe, filled, dots) =
      let ascii = All-map safe_is_ascii r.name safe in
      let segment : IsSegment r.name = record {
        bytes = All-map (λ c (h : c < 128). omega arith) r.name ascii;
        some_name = filled;
        no_dots = dots;
      } in
      rw
        (
          utf8.encode_ascii r.name ascii,
          serve_request-files utf8.decode hash s a now
              (record {
                method = post;
                path = codes "/files/" ++ path_escape r.name;
                content_length = r.content_length;
                body = r.body;
                body_fails = r.body_fails;
              })
              d r.name segment refl refl,
          utf8.decode_ascii r.name ascii,
        )
        refl

  -- An upload over HTTP, by its path `/files/` and the escaped name through the routes of the server, does
  -- and answers just what the upload handler of the server does for it, where the base URL has no path.
  pub upload_once_over_http :
      (source : ℕ → ℕ → ℕ) (hashing sending : List ℕ) (u : Uploader) (seq : ℕ) (d : Disk)
      → upload_once hash source hashing sending (post_over utf8 [] http_server) u seq d
        ≡ upload_once hash source hashing sending (answered_by hash s.uploads a) u seq d
  unfolding upload_once upload_deterministic upload_request
  upload_once_over_http source hashing sending u seq d =
      let name = upload_name u.client_id seq in
      let n = pos_part u.size in
      let expected = deterministic_sha256 hash (source (seq + 1)) hashing n in
      ap
        (λ (x : Disk × Option Reply).
          let y : Disk × Result ClientError Response =
            if is_empty name
            then (d, err no_name)
            else if not (leb_ℤ (pos 0) u.size)
            then (d, err negative_size)
            else (x.0, check_reply n expected x.1) in
          y)
        (post_over_served (upload_request (source (seq + 1)) sending name n) d
          (upload_name-IsSafeName u.client_id seq))
