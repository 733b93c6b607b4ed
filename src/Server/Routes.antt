-- ===== src/Server/Routes.antt =====
-- internal/server/server.go: the routes of `New`, as net/http matches them, and the handlers behind them. The
-- JSON of an answer is its fields, whose texts are UTF-8.
pub mod Matching
use quixiot.Prelude.{
  ℕ, ◌+◌, ◌-◌, ◌/◌, Bool, true, false, not, ◌&&◌, ◌||◌, List, [], ◌∷◌, ◌++◌, Bytes, Option, none,
  some, is_empty, leb, ◌==◌, if◌then◌else◌, map,
}
use quixiot.Prelude.Int.{ℤ, pos, negsuc}
use quixiot.Prelude.Strings.{codes, same_bytes}
use quixiot.ClientCommand.{DeviceConfig, handle_config}
use quixiot.Upload.Serving.{Handler, Disk, Answers, Request, Reply, serve_http}
use quixiot.Server.Paths.{segments, is_clean, decoded}

-- What `Server` keeps for its handlers. Times are the wall clock's, in nanoseconds.
pub record Server : Type 0 where
  pub version : Bytes
  pub started_at : ℕ
  pub uploads : Handler
  pub metrics : Bool

pub data Method : Type 0 where
  get head post connect other_method : Method

-- A request, its path as it is escaped.
pub record HttpRequest : Type 0 where
  pub method : Method
  pub path : Bytes
  pub content_length : ℤ
  pub body : Bytes
  pub body_fails : Bool

-- The patterns, with what they bind.
pub data Target : Type 0 where
  to_state to_pubsub to_metrics : Target
  to_config to_files : Bytes → Target

-- The pattern that the path fits; no path fits two.
pub match_path : Bool → List Bytes → Option Target
match_path metrics (root ∷ a ∷ []) =
    if same_bytes a (codes "state")
    then some to_state
    else if same_bytes a (codes "pubsub")
    then some to_pubsub
    else if metrics && same_bytes a (codes "metrics")
    then some to_metrics
    else none
match_path metrics (root ∷ a ∷ b ∷ []) =
    if is_empty b
    then none
    else if same_bytes a (codes "config")
    then some (to_config b)
    else if same_bytes a (codes "files")
    then some (to_files b)
    else none
match_path metrics _ = none

-- GET is for HEAD too, and a pattern with no method for all.
pub allows : Target → Method → Bool
allows to_state get = true
allows to_state head = true
allows (to_config id) get = true
allows (to_config id) head = true
allows (to_files name) post = true
allows to_pubsub connect = true
allows to_metrics _ = true
allows _ _ = false

pub data Route : Type 0 where
  redirect not_found method_not_allowed : Route
  route : Target → Route

routed : Method → Option Target → Route
unfolding allows
routed m none = not_found
routed m (some t) = if allows t m then route t else method_not_allowed

is_connect : Method → Bool
is_connect connect = true
is_connect _ = false

-- The mux of `New`. But for CONNECT, a path that is not clean is redirected.
unfoldable pub dispatch : Bool → Method → Bytes → Route
unfolding match_path routed is_connect
dispatch metrics m path =
    if is_connect m || is_clean (segments path)
    then routed m (match_path metrics (decoded (segments path)))
    else redirect

-- `stateResponse` of the server, `State` of the client.
pub record StateResponse : Type 0 where
  pub version : Bytes
  pub started_at : ℕ
  pub uptime_millis : ℤ

-- `time.Since` in milliseconds, rounded to zero; the times are less than 2^63 nanoseconds apart.
unfoldable pub millis_since : ℕ → ℕ → ℤ
millis_since started now =
    if leb started now
    then pos ((now - started) / 1000000)
    else if (started - now) / 1000000 == 0
    then pos 0
    else negsuc ((started - now) / 1000000 - 1)

-- `handleState`
unfoldable pub handle_state : Server → ℕ → StateResponse
unfolding millis_since
handle_state s now = record {
  version = s.version;
  started_at = s.started_at;
  uptime_millis = millis_since s.started_at now;
}

-- What the client is told: a status with a text, the JSON of a handler, the answer of an upload, the page of
-- the metrics, or that the session is upgraded, which `HandleRequest` of the broker goes on with.
pub data Answer : Type 0 where
  told : ℕ → Answer
  state_json : StateResponse → Answer
  config_json : DeviceConfig → Answer
  upload_reply : Reply → Answer
  metrics_page upgraded : Answer

-- `runes` reads a text as its runes, and `hash` is SHA-256 in hexadecimal.
module _ (runes : Bytes → List ℕ) (hash : Bytes → Bytes) where
  serve_target : Server → Answers → ℕ → HttpRequest → Disk → Target → Disk × Answer
  unfolding handle_state
  serve_target s a now r d to_state = (d, state_json (handle_state s now))
  serve_target s a now r d (to_config id) = (d, config_json (handle_config id))
  serve_target s a now r d (to_files name) =
      let upload : Request = record {
        name = runes name;
        content_length = r.content_length;
        body = r.body;
        body_fails = r.body_fails;
      } in
      let (t, reply) = serve_http hash s.uploads a upload d in (t, upload_reply reply)
  serve_target s a now r d to_pubsub = (d, upgraded)
  serve_target s a now r d to_metrics = (d, metrics_page)

  pub serve_route : Server → Answers → ℕ → HttpRequest → Disk → Route → Disk × Answer
  unfolding serve_target
  serve_route s a now r d redirect = (d, told 301)
  serve_route s a now r d not_found = (d, told 404)
  serve_route s a now r d method_not_allowed = (d, told 405)
  serve_route s a now r d (route t) = serve_target s a now r d t

  -- The handler of the server, under `instrumentHTTP` or not.
  pub serve_request : Server → Answers → ℕ → HttpRequest → Disk → Disk × Answer
  unfolding serve_route
  serve_request s a now r d = serve_route s a now r d (dispatch s.metrics r.method r.path)
