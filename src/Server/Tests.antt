-- ===== src/Server/Tests.antt =====
-- The start of a server, its routes and what it observes, at concrete inputs.
use quixiot.Prelude.{
  ℕ, ◌+◌, ◌≡◌, refl, true, false, List, [], ◌∷◌, none, some, length, if◌then◌else◌, arith,
}
use quixiot.Prelude.Int.{pos, pos_part}
use quixiot.Prelude.Strings.{codes, same_bytes, split_at}
use quixiot.Upload.{DirEntry, UploadFile, regular, removed_now, is_dot_name}
use quixiot.Server.Paths.{
  path_escape, segments, is_clean, decoded, unescape, is_kept, hex_digit, unhex,
}
use quixiot.Server.Routes.{
  get, head, connect, to_state, to_config, to_pubsub, route, redirect, not_found,
  method_not_allowed, dispatch,
}
use quixiot.Server.Start.{Options, System, Host, Closing, new_server, close_server}
use quixiot.Server.Start.Bounded.{Ends, new_server-Ends}
use quixiot.Server.Recorder.{
  Call, write_header, write, HttpMetrics, calls_below, pattern_text, instrument_http,
}
use quixiot.Server.Recorder.Observed.{is_head, seen, unsent, pattern_path, instrument_http_observes}

escape_run : path_escape (codes "a/b %") ≡ codes "a%2Fb%20%25"
unfolding path_escape is_kept hex_digit
escape_run = refl

routes_run :
    (dispatch true get (codes "/config/a%2Fb") ≡ route (to_config (codes "a/b")))
    × (dispatch true head (codes "/state") ≡ route to_state)
    × (dispatch true get (codes "/files/x") ≡ method_not_allowed)
    × (dispatch false get (codes "/metrics") ≡ not_found)
    × (dispatch true get (codes "/config/..") ≡ redirect)
    × (dispatch true get (codes "/config/") ≡ not_found)
    × (dispatch true connect (codes "/pubsub") ≡ route to_pubsub)
unfolding dispatch segments split_at is_clean decoded unescape unhex is_dot_name same_bytes
routes_run = (refl, refl, refl, refl, refl, refl, refl)

abbrev old_file : UploadFile
old_file = record { path = codes "d/a"; size = 60; mod_time = 1 }

abbrev new_file : UploadFile
new_file = record { path = codes "d/b"; size = 50; mod_time = 2 }

abbrev entries : List DirEntry
entries = regular new_file ∷ regular old_file ∷ []

abbrev system : System
system = record {
  now = 7;
  dir_made = true;
  listing = some entries;
  remove = λ _. removed_now;
  listens = true;
}

abbrev options : Options
options = record {
  packet_conn = true;
  tls_config = true;
  version = [];
  started_at = none;
  upload_dir = codes "d";
  upload_max_bytes = pos 100;
  metrics = true;
}

abbrev host : Host
host = record { disk = record { file = λ _. none; temp = none; stored = [] }; transport = false }

new_server-Ends_example : Ends system options entries host (new_server system options host)
new_server-Ends_example = new_server-Ends system options entries refl tt (omega arith) host

abbrev reply : List Call
reply = write_header 404 ∷ write (codes "no") 2 ∷ write (codes "!") 1 ∷ []

abbrev collectors : HttpMetrics
collectors = record { durations = []; bytes_in = 5; bytes_out = 6 }

instrument_http_observes_example :
    let whole = (calls_below reply (unsent false)).body in
    let (w, k) =
      instrument_http head
        (pattern_text to_state)
        (codes "/state")
        (pos 3)
        reply
        (unsent (is_head head), collectors) in
    (w ≡ calls_below reply (unsent (is_head head)))
    × (w.body ≡ (if is_head head then [] else whole))
    × (k.durations
        ≡ record { method = head; path = pattern_path to_state; status = seen w.status } ∷ [])
    × (k.bytes_out ≡ 6 + length whole)
    × (k.bytes_in ≡ 5 + pos_part (pos 3))
instrument_http_observes_example =
    instrument_http_observes head to_state (codes "/state") (pos 3) reply collectors (omega arith)

abbrev opened : Closing
opened = record {
  closed = false;
  closed_wt = false;
  closed_listener = false;
  closed_transport = false;
}

close_run : (close_server {E = ℕ} none (some 1) (some 2) opened).1 ≡ some 1
unfolding close_server
close_run = refl
