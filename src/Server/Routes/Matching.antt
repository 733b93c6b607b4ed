-- ===== src/Server/Routes/Matching.antt =====
-- Where the routes take the paths that a client writes.
use quixiot.Prelude.{ℕ, List, ◌≡◌, refl, Bool, ◌++◌, Bytes}
use quixiot.Prelude.Strings.{codes, same_bytes, split_at}
use quixiot.Upload.{is_dot_name}
use quixiot.Server.Paths.{path_escape, segments, is_clean, decoded, unescape}
use quixiot.Server.Paths.Segments.{IsSegment, config_path, files_path}
use quixiot.ClientCommand.{handle_config}
use quixiot.Upload.Serving.{Disk, Answers, Request, serve_http}
use quixiot.Server.Routes.{
  get, post, to_config, to_files, route, to_state, dispatch, Server, HttpRequest, state_json,
  config_json, upload_reply, handle_state, serve_request,
}

pub dispatch-state : (metrics : Bool) → dispatch metrics get (codes "/state") ≡ route to_state
unfolding dispatch same_bytes segments split_at is_clean decoded unescape is_dot_name
dispatch-state metrics = refl

module _ (metrics : Bool) (name : Bytes) (h : IsSegment name) where
  pub dispatch-config :
      dispatch metrics get (codes "/config/" ++ path_escape name) ≡ route (to_config name)
  unfolding dispatch same_bytes
  dispatch-config = let (clean, read) = config_path name h in rw (clean, read, h.some_name) refl

  pub dispatch-files :
      dispatch metrics post (codes "/files/" ++ path_escape name) ≡ route (to_files name)
  unfolding dispatch same_bytes
  dispatch-files = let (clean, read) = files_path name h in rw (clean, read, h.some_name) refl

module _ (runes : Bytes → List ℕ) (hash : Bytes → Bytes) (s : Server) (a : Answers) (now : ℕ)
    (r : HttpRequest) (d : Disk) where
  pub serve_request-state :
      r.method ≡ get
      → r.path ≡ codes "/state"
      → serve_request runes hash s a now r d ≡ (d, state_json (handle_state s now))
  unfolding serve_request
  serve_request-state m p = simp (m, p, dispatch-state s.metrics)

  pub serve_request-config :
      (id : Bytes)
      → IsSegment id
      → r.method ≡ get
      → r.path ≡ codes "/config/" ++ path_escape id
      → serve_request runes hash s a now r d ≡ (d, config_json (handle_config id))
  unfolding serve_request
  serve_request-config id h m p = simp (m, p, dispatch-config s.metrics id h)

  abbrev pub upload_named : List ℕ → Request
  upload_named name = record {
    name = name;
    content_length = r.content_length;
    body = r.body;
    body_fails = r.body_fails;
  }

  pub serve_request-files :
      (name : Bytes)
      → IsSegment name
      → r.method ≡ post
      → r.path ≡ codes "/files/" ++ path_escape name
      → serve_request runes hash s a now r d ≡ (
          let (t, reply) = serve_http hash s.uploads a (upload_named (runes name)) d in
          (t, upload_reply reply))
  unfolding serve_request
  serve_request-files name h m p = simp (m, p, dispatch-files s.metrics name h)
