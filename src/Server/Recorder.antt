-- ===== src/Server/Recorder.antt =====
-- internal/server/server.go: `statusRecorder`, `routeLabel` and `instrumentHTTP`. A handler is the calls that it
-- makes on its writer; the writer below is that of HTTP/3, which sends the first final status, or 200 in front of
-- a body.
pub mod Observed
use quixiot.Prelude.{
  ℕ, ◌+◌, ◌<◌, Bool, true, false, List, [], ◌∷◌, ◌++◌, Bytes, Option, none, some, is_empty, length,
  take, min, ltb, ◌==◌, if◌then◌else◌,
}
use quixiot.Prelude.Int.{ℤ, pos, negsuc}
use quixiot.Prelude.Strings.{codes}
use quixiot.Server.Routes.{Method, Target, to_state, to_config, to_files, to_pubsub, to_metrics}

-- A call, `Write` with the number of bytes that the writer below takes.
pub data Call : Type 0 where
  write_header : ℕ → Call
  write : Bytes → ℕ → Call

-- What the client is sent. It is `silent` for a HEAD, whose body is taken and not sent.
pub record Writer : Type 0 where
  pub silent : Bool
  pub status : Option ℕ
  pub body : Bytes

-- A status below 200 is not final.
sent_status : ℕ → Option ℕ → Option ℕ
sent_status status none = if ltb status 200 then none else some status
sent_status status (some first) = some first

pub call_below : Call → Writer → Writer
unfolding sent_status
call_below (write_header status) w = record w { status = sent_status status w.status }
call_below (write p n) w = record w {
  status = sent_status 200 w.status;
  body = if w.silent then w.body else w.body ++ take n p;
}

pub calls_below : List Call → Writer → Writer
unfolding call_below
calls_below [] w = w
calls_below (c ∷ rest) w = calls_below rest (call_below c w)

-- `statusRecorder`
pub record StatusRecorder : Type 0 where
  pub below : Writer
  pub status : ℕ
  pub bytes : ℕ

-- `WriteHeader` and `Write`
pub recorded_call : Call → StatusRecorder → StatusRecorder
recorded_call (write_header status) r = record r {
  status = status;
  below = call_below (write_header status) r.below;
}
recorded_call (write p n) r = record r {
  bytes = r.bytes + min n (length p);
  below = call_below (write p n) r.below;
}

pub recorded_calls : List Call → StatusRecorder → StatusRecorder
unfolding recorded_call
recorded_calls [] r = r
recorded_calls (c ∷ rest) r = recorded_calls rest (recorded_call c r)

-- A pattern of the routes.
pub pattern_text : Target → Bytes
pattern_text to_state = codes "GET /state"
pattern_text (to_config id) = codes "GET /config/{clientID}"
pattern_text (to_files name) = codes "POST /files/{name}"
pattern_text to_pubsub = codes "CONNECT /pubsub"
pattern_text to_metrics = codes "/metrics"

-- What stands behind the first space, or else the whole.
behind_space : Bytes → Bytes → Bytes
behind_space whole [] = whole
behind_space whole (c ∷ rest) =
    let later = behind_space whole rest in if c == 32 then rest else later

-- `routeLabel`, of the request's pattern, which is empty where none fits, and its path.
pub route_label : Bytes → Bytes → Bytes
unfolding behind_space
route_label pattern_ path =
    let label = behind_space pattern_ pattern_ in
    if is_empty label then (if is_empty path then codes "/" else path) else label

-- An observation of `HTTPDuration`, by its labels, without the time.
pub record Observation : Type 0 where
  pub method : Method
  pub path : Bytes
  pub status : ℕ

-- The collectors: the observations, the latest first, and the counters of bytes.
pub record HttpMetrics : Type 0 where
  pub durations : List Observation
  pub bytes_in : ℕ
  pub bytes_out : ℕ

counted_in : ℤ → ℕ → ℕ
counted_in (pos n) total = total + n
counted_in (negsuc n) total = total

-- The handler of `instrumentHTTP`, where there are metrics: what the client is sent, and the collectors.
pub instrument_http :
    Method → Bytes → Bytes → ℤ → List Call → Writer × HttpMetrics → Writer × HttpMetrics
unfolding recorded_calls route_label counted_in
instrument_http m pattern_ path content_length calls (w, metrics) =
    let r = recorded_calls calls (record { below = w; status = 200; bytes = 0 }) in
    (
      r.below,
      record {
        durations =
            record { method = m; path = route_label pattern_ path; status = r.status }
            ∷ metrics.durations;
        bytes_in = counted_in content_length metrics.bytes_in;
        bytes_out = metrics.bytes_out + r.bytes;
      },
    )
