-- ===== src/SharedConn.antt =====
-- internal/client/shared_conn.go: the QUIC connection that a client's requests and pubsub sessions share.
-- Connections and sessions are numbers, their pointers, given out in order. `sharedMu` is not reentrant:
-- a call that its own goroutine's lock keeps from going on, for ever, is `none`. What quic-go answers is
-- given. Each definition here is one critical section, or touches what one goroutine alone does.
pub mod Registry
pub mod Lifecycle
pub mod Reachable
pub mod Locking
pub mod Routing
mod Tests
use quixiot.Prelude.{
  ℕ, suc, ◌+◌, Bool, true, false, not, ◌&&◌, ◌||◌, List, [], ◌∷◌, ◌++◌, Bytes, Option, none, some,
  length, drop, ltb, ◌==◌, if◌then◌else◌, Result, ok, err,
}
use quixiot.Wire.{Varint}

abbrev pub web_transport_frame_type : ℕ
web_transport_frame_type = 65

abbrev pub web_transport_uni_stream_type : ℕ
web_transport_uni_stream_type = 84

abbrev pub uni_queue_depth : ℕ
uni_queue_depth = 256

-- The cause that a session's context was cancelled with.
pub data Cause : Type 0 where
  canceled eof request_failed : Cause

-- `pubsubTransportSessionImpl`. `closed` tells if `closeOnce` has run: then the context is cancelled and
-- the queue's channel closed. A stream is a number.
pub record TransportSession : Type 0 where
  pub shared : ℕ
  pub session_id : ℕ
  pub stream_hdr : Bytes
  pub closed : Bool
  pub cause : Option Cause
  pub uni_queue : List ℕ

-- `sharedConn`. `sessions` is `none` for the nil map; `done` tells if the QUIC connection has ended.
pub record Conn : Type 0 where
  pub done : Bool
  pub close_called : Bool
  pub sessions : Option (ℕ → Option ℕ)

-- The client with all that it made.
pub record Client : Type 0 where
  pub closed : Bool
  pub shared : Option ℕ
  pub conns : ℕ → Conn
  pub next_conn : ℕ
  pub session : ℕ → TransportSession
  pub next_session : ℕ

pub data ConnError : Type 0 where
  err_client_closed missing_tls dial_failed settings_canceled conn_ended no_extended_connect
        no_datagrams :
      ConnError

-- What a new connection meets, and if it has ended by the time that `newSharedConn` is through, also
-- behind its settings, where the code does not look again.
pub data SettingsEvent : Type 0 where
  received ctx_done conn_done : SettingsEvent

pub record DialEnv : Type 0 where
  pub tls_config : Bool
  pub dialled : Bool
  pub settings : SettingsEvent
  pub extended_connect : Bool
  pub datagrams : Bool
  pub ended : Bool

abbrev pub set_at {ℓ} : {V : Type ℓ} → (ℕ → V) → ℕ → V → ℕ → V
set_at m k v j = if k == j then v else m j

-- `sc.sessions[id]`, which is nil on a nil map.
abbrev pub session_at : Option (ℕ → Option ℕ) → ℕ → Option ℕ
session_at none id = none
session_at (some m) id = m id

abbrev pub is_session : ℕ → Option ℕ → Bool
is_session s none = false
is_session s (some r) = r == s

pub lookup_session : ℕ → ℕ → Client → Option ℕ
lookup_session c id w = session_at (w.conns c).sessions id

put_session : ℕ → ℕ → Option (ℕ → Option ℕ) → Option (Option (ℕ → Option ℕ))
put_session id s none = none
put_session id s (some m) = some (some (set_at m id (some s)))

abbrev pub with_sessions : ℕ → Option (ℕ → Option ℕ) → Client → Client
with_sessions c m w = record w { conns = set_at w.conns c (record (w.conns c) { sessions = m }) }

-- `registerSession`
pub register_session : ℕ → Client → Result ConnError Client
unfolding put_session
register_session s w =
    let t = w.session s in
    elim (put_session t.session_id s (w.conns t.shared).sessions) [
      | none ↦ err err_client_closed
      | some m ↦ ok (with_sessions t.shared m w)
    ]

deleted : ℕ → ℕ → Option (ℕ → Option ℕ) → Option (ℕ → Option ℕ)
deleted id s none = none
deleted id s (some m) = some (if is_session s (m id) then set_at m id none else m)

-- `unregisterSession`
pub unregister_session : ℕ → ℕ → ℕ → Client → Client
unfolding deleted
unregister_session c id s w = with_sessions c (deleted id s (w.conns c).sessions) w

abbrev pub shut : Cause → TransportSession → TransportSession
shut e t = record t { closed = true; cause = some e }

-- `io.EOF` is no cause of its own.
abbrev pub cause_of : Cause → Cause
cause_of eof = canceled
cause_of e = e

-- `closeWithCause`, of which `closeOnce` lets one call through. `Close` is the same with the cause
-- `canceled`, and gives up the request too.
pub close_with_cause : Cause → ℕ → Client → Client
unfolding unregister_session
close_with_cause e s w =
    let t = w.session s in
    if t.closed
    then w
    else let u = unregister_session t.shared t.session_id s w in
      record u { session = set_at u.session s (shut (cause_of e) t) }

-- `newPubSubTransportSession`, on a request stream with this ID.
pub new_session : Varint → ℕ → ℕ → Client → Client
new_session v c id w = record w {
  session = set_at w.session w.next_session (record {
    shared = c;
    session_id = id;
    stream_hdr = v.append (v.append [] web_transport_frame_type) id;
    closed = false;
    cause = none;
    uni_queue = [];
  });
  next_session = suc w.next_session;
}

-- The parts of `sharedConn.close`, inside `closeOnce`. The sessions that the snapshot holds are closed
-- where the map is gone already.
pub is_registered : ℕ → ℕ → Client → Bool
is_registered c s w = is_session s (session_at (w.conns c).sessions (w.session s).session_id)

pub drop_sessions : ℕ → Client → Client
drop_sessions c w = with_sessions c none w

pub close_sessions : (ℕ → Bool) → Client → Client
close_sessions snapshot w = record w {
  session = λ s.
      if snapshot s && not (w.session s).closed then shut canceled (w.session s) else w.session s;
}

-- `raw.CloseWithError`, which ends the QUIC connection.
pub end_conn : ℕ → Client → Client
end_conn c w = record w { conns = set_at w.conns c (record (w.conns c) { done = true }) }

pub clear_shared : ℕ → Client → Client
clear_shared c w = record w { shared = if is_session c w.shared then none else w.shared }

pub begin_close : ℕ → Client → Client
begin_close c w = record w { conns = set_at w.conns c (record (w.conns c) { close_called = true }) }

-- `sharedConn.close`; `held` tells if its own goroutine holds `sharedMu`, for which it waits at its end.
pub close_conn : Bool → ℕ → Client → Option Client
unfolding is_registered drop_sessions close_sessions end_conn clear_shared begin_close
close_conn held c w =
    if (w.conns c).close_called
    then some w
    else if held
    then none
    else some (
        clear_shared c (
          end_conn c
            (close_sessions (λ s. is_registered c s w) (drop_sessions c (begin_close c w)))))

failing : Option Client → ConnError → Option (Result ConnError ℕ × Client)
failing none e = none
failing (some w) e = some (err e, w)

-- Behind the dialling: the wait for the settings, and their check.
settle : Bool → DialEnv → ℕ → Client → SettingsEvent → Option (Result ConnError ℕ × Client)
unfolding close_conn failing
settle held env c w ctx_done = failing (close_conn held c w) settings_canceled
settle held env c w conn_done = failing (close_conn held c w) conn_ended
settle held env c w received =
    if not env.extended_connect
    then failing (close_conn held c w) no_extended_connect
    else if not env.datagrams
    then failing (close_conn held c w) no_datagrams
    else some (ok c, w)

abbrev pub add_conn : DialEnv → Client → Client
add_conn env w = record w {
  conns =
      set_at w.conns w.next_conn
        (record { done = env.ended; close_called = false; sessions = some (λ id. none) });
  next_conn = suc w.next_conn;
}

-- `newSharedConn`
pub new_shared_conn : Bool → DialEnv → Client → Option (Result ConnError ℕ × Client)
unfolding settle
new_shared_conn held env w =
    if not env.tls_config
    then some (err missing_tls, w)
    else if not env.dialled
    then some (err dial_failed, w)
    else settle held env w.next_conn (add_conn env w) env.settings

dial_shared : Option (Result ConnError ℕ × Client) → Option (Result ConnError ℕ × Client)
dial_shared none = none
dial_shared (some (err e, w)) = some (err e, w)
dial_shared (some (ok c, w)) = some (ok c, record w { shared = some c })

-- The connection to use, unless it has ended.
pub live_shared : Client → Option ℕ → Option ℕ
live_shared w none = none
live_shared w (some c) = if (w.conns c).done then none else some c

use_shared : DialEnv → Client → Option ℕ → Option (Result ConnError ℕ × Client)
unfolding new_shared_conn dial_shared
use_shared env w (some c) = some (ok c, record w { shared = some c })
use_shared env w none = dial_shared (new_shared_conn true env (record w { shared = none }))

-- `getSharedConn`, which holds `sharedMu` from its start to its end.
pub get_shared_conn : DialEnv → Client → Option (Result ConnError ℕ × Client)
unfolding use_shared live_shared
get_shared_conn env w =
    if w.closed then some (err err_client_closed, w) else use_shared env w (live_shared w w.shared)

-- `enqueueUniStream`. On a session that has ended both cases of the select are there to take, and the
-- send on the closed channel panics: `choice` tells which case Go takes.
pub data Enqueued : Type 0 where
  stream_canceled panics blocks : Enqueued
  queued : Client → Enqueued

pub enqueue_uni_stream : Bool → ℕ → ℕ → Client → Enqueued
enqueue_uni_stream choice s stream w =
    let t = w.session s in
    if t.closed
    then if choice then stream_canceled else panics
    else if ltb (length t.uni_queue) uni_queue_depth
    then queued (record w {
      session = set_at w.session s (record t { uni_queue = t.uni_queue ++ stream ∷ [] });
    })
    else blocks

-- What `handleUnidirectionalStream` does with a stream, by its first bytes.
pub data Route : Type 0 where
  ignored to_http3 protocol_error session_gone : Route
  to_session : ℕ → Route

route_id : Varint → ℕ → Client → Bytes → Route
route_id v c w rest = elim (v.parse rest) [
  | none ↦ protocol_error
  | some (id, n) ↦ elim (lookup_session c id w) [ none ↦ session_gone | some s ↦ to_session s ]
]

pub route_uni_stream : Varint → ℕ → Bytes → Client → Route
unfolding route_id lookup_session
route_uni_stream v c bytes w = elim (v.parse bytes) [
  | none ↦ ignored
  | some (typ, n) ↦
      if typ == web_transport_uni_stream_type then route_id v c w (drop n bytes) else to_http3
]

close_taken : Option ℕ → Client → Option Client
unfolding close_conn
close_taken none w = some w
close_taken (some c) w = close_conn false c w

-- `Client.Close`
pub close_client : Client → Option Client
unfolding close_taken
close_client w = close_taken w.shared (record w { closed = true; shared = none })
