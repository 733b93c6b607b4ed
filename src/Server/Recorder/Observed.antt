-- ===== src/Server/Recorder/Observed.antt =====
-- What `instrumentHTTP` observes of a handler.
use quixiot.Prelude.{
  Bool, true, false, if◌then◌else◌, ◌++◌, ℕ, ◌+◌, ◌≤◌, ◌≡◌, refl, ap, sym, ◌∙◌, List, [], ◌∷◌,
  Bytes, Option, none, some, length, length-append, length-take, take, arith,
}
use quixiot.Prelude.Int.{ℤ, pos, negsuc, pos_part}
use quixiot.Prelude.Strings.{codes}
use quixiot.Server.Routes.{
  Method, get, head, post, connect, other_method, Target, to_state, to_config, to_files, to_pubsub,
  to_metrics,
}
use quixiot.Server.Recorder.{
  Call, write_header, write, Writer, calls_below, StatusRecorder, recorded_call, recorded_calls,
  pattern_text, route_label, Observation, HttpMetrics, instrument_http, counted_in, sent_status,
}

-- The body alone: no status behind it.
abbrev pub IsBody : List Call → Type 0
IsBody [] = Unit
IsBody (write_header status ∷ rest) = ⊥
IsBody (write p n ∷ rest) = IsBody rest

-- At most one status, which is final and stands in front of the body.
abbrev pub IsReply : List Call → Type 0
IsReply (write_header status ∷ rest) = (200 ≤ status) × IsBody rest
IsReply calls = IsBody calls

-- The writer of a request, and if it is a HEAD.
abbrev pub unsent : Bool → Writer
unsent silent = record { silent = silent; status = none; body = [] }

recorded_calls_below :
    (calls : List Call) (r : StatusRecorder)
    → (recorded_calls calls r).below ≡ calls_below calls r.below
unfolding recorded_calls calls_below
recorded_calls_below [] r = refl
recorded_calls_below (write_header status ∷ rest) r =
    recorded_calls_below rest (recorded_call (write_header status) r)
recorded_calls_below (write p n ∷ rest) r = recorded_calls_below rest (recorded_call (write p n) r)

-- The bytes that are counted are those of the body that a request other than HEAD is sent.
recorded_calls_bytes :
    (calls : List Call) (r : StatusRecorder) (status : Option ℕ) (body : Bytes)
    → (recorded_calls calls r).bytes + length body
      ≡ r.bytes
        + length (calls_below calls (record { silent = false; status = status; body = body })).body
unfolding recorded_calls calls_below
recorded_calls_bytes [] r status body = refl
recorded_calls_bytes (write_header s ∷ rest) r status body =
    recorded_calls_bytes rest (recorded_call (write_header s) r) (sent_status s status) body
recorded_calls_bytes (write p n ∷ rest) r status body = omega (
  arith,
  recorded_calls_bytes rest (recorded_call (write p n) r) (sent_status 200 status)
      (body ++ take n p),
  length-append body (take n p),
  length-take n p,
)

-- A HEAD is sent no body.
head_body :
    (calls : List Call) (status : Option ℕ)
    → (calls_below calls (record { silent = true; status = status; body = [] })).body ≡ []
unfolding calls_below
head_body [] status = refl
head_body (write_header s ∷ rest) status = head_body rest (sent_status s status)
head_body (write p n ∷ rest) status = head_body rest (sent_status 200 status)

body_sent :
    (silent : Bool) (calls : List Call)
    → (calls_below calls (unsent silent)).body
      ≡ (if silent then [] else (calls_below calls (unsent false)).body)
body_sent true calls = head_body calls none
body_sent false calls = refl

-- The status that the client sees, 200 where none was sent.
abbrev pub seen : Option ℕ → ℕ
seen none = 200
seen (some status) = status

sent_ok : (o : Option ℕ) → seen (sent_status 200 o) ≡ seen o
unfolding sent_status
sent_ok none = refl
sent_ok (some first) = refl

body_status :
    (calls : List Call) (r : StatusRecorder)
    → IsBody calls
    → r.status ≡ seen r.below.status
    → (recorded_calls calls r).status ≡ seen (calls_below calls r.below).status
unfolding recorded_calls calls_below
body_status [] r h e = e
body_status (write_header status ∷ rest) r h e = elim h [ ]
body_status (write p n ∷ rest) r h e =
    body_status rest (recorded_call (write p n) r) h (e ∙ sym (sent_ok r.below.status))

abbrev recorder : Bool → StatusRecorder
recorder silent = record { below = unsent silent; status = 200; bytes = 0 }

reply_status :
    (silent : Bool) (calls : List Call)
    → IsReply calls
    → (recorded_calls calls (recorder silent)).status
      ≡ seen (calls_below calls (unsent silent)).status
unfolding recorded_calls calls_below
reply_status silent [] h = refl
reply_status silent (write p n ∷ rest) h = body_status (write p n ∷ rest) (recorder silent) h refl
reply_status silent (write_header status ∷ rest) (final, h) =
    body_status rest (recorded_call (write_header status) (recorder silent)) h
      (ground (arith, final))

-- The paths of the patterns.
abbrev pub pattern_path : Target → Bytes
pattern_path to_state = codes "/state"
pattern_path (to_config id) = codes "/config/{clientID}"
pattern_path (to_files name) = codes "/files/{name}"
pattern_path to_pubsub = codes "/pubsub"
pattern_path to_metrics = codes "/metrics"

route_label-pattern_text :
    (t : Target) (path : Bytes) → route_label (pattern_text t) path ≡ pattern_path t
unfolding route_label pattern_text
route_label-pattern_text to_state path = refl
route_label-pattern_text (to_config id) path = refl
route_label-pattern_text (to_files name) path = refl
route_label-pattern_text to_pubsub path = refl
route_label-pattern_text to_metrics path = refl

counted_in_lem : (n : ℤ) (total : ℕ) → counted_in n total ≡ total + pos_part n
unfolding counted_in
counted_in_lem (pos n) total = refl
counted_in_lem (negsuc n) total = omega arith

pub is_head : Method → Bool
is_head get = false
is_head head = true
is_head post = false
is_head connect = false
is_head other_method = false

-- For a handler that a route reached, and that sends at most one status, a final one in front of its body:
-- the client is sent just what it is sent without the metrics; one observation is made, with the path of the
-- route's pattern and the status that the client sees; the bytes out are those of the whole body,
-- which the client is sent but for a HEAD, which is sent none; and the bytes in are those that the request
-- announced, if any.
pub instrument_http_observes :
    (m : Method) (t : Target) (path : Bytes) (content_length : ℤ) (calls : List Call)
    (metrics : HttpMetrics)
    → IsReply calls
    → let whole = (calls_below calls (unsent false)).body in
      let (w, k) =
        instrument_http m
          (pattern_text t)
          path
          content_length
          calls
          (unsent (is_head m), metrics) in
      (w ≡ calls_below calls (unsent (is_head m)))
      × (w.body ≡ (if is_head m then [] else whole))
      × (k.durations
          ≡ record { method = m; path = pattern_path t; status = seen w.status }
            ∷ metrics.durations)
      × (k.bytes_out ≡ metrics.bytes_out + length whole)
      × (k.bytes_in ≡ metrics.bytes_in + pos_part content_length)
unfolding instrument_http
instrument_http_observes m t path content_length calls metrics h =
    let below = recorded_calls_below calls (recorder (is_head m)) in
    let status =
      reply_status (is_head m) calls h ∙ ap (λ (w : Writer). seen w.status) (sym below) in
    (
      below,
      ap (λ (w : Writer). w.body) below ∙ body_sent (is_head m) calls,
      ap (λ (o : Observation). o ∷ metrics.durations)
          (λ i. record { method = m; path = route_label-pattern_text t path i; status = status i }),
      omega (arith, recorded_calls_bytes calls (recorder (is_head m)) none []),
      counted_in_lem content_length metrics.bytes_in,
    )
