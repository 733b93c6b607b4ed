-- ===== src/SharedConn/Tests.antt =====
-- A client with one connection and one session on it.
use mathlib.Core.Option as Option
use quixiot.Prelude.{
  Result, ℕ, ◌^◌, ◌<◌, ◌≡◌, ◌≢◌, ◌↔◌, refl, Bool, true, false, [], ◌∷◌, ◌++◌, Bytes, none, some, ok,
  arith, if◌then◌else◌, ◌==◌,
}
use quixiot.Wire.Tests.{rfc9000}
use quixiot.SharedConn.{
  ConnError, TransportSession, Client, received, ctx_done, DialEnv, set_at, with_sessions,
  web_transport_uni_stream_type, lookup_session, new_session, register_session, live_shared,
  get_shared_conn, session_gone, to_session, route_uni_stream, panics, enqueue_uni_stream,
}
use quixiot.SharedConn.Registry.{IsSound}
use quixiot.SharedConn.Reachable.{IsNew, Step, Reach, client_stays-IsSound}
use quixiot.SharedConn.Locking.{Serves, Gotten, get_shared_conn_blocks}
use quixiot.SharedConn.Routing.{route_uni_stream_lists}

abbrev no_session : TransportSession
no_session = record {
  shared = 0;
  session_id = 0;
  stream_hdr = [];
  closed = false;
  cause = none;
  uni_queue = [];
}

abbrev fresh : Client
fresh = record {
  closed = false;
  shared = none;
  conns = λ c. record { done = true; close_called = true; sessions = none };
  next_conn = 0;
  session = λ s. no_session;
  next_session = 0;
}

fresh-IsNew : IsNew fresh
fresh-IsNew = record { no_sessions = refl; no_maps = λ c. refl; no_closed = λ s. refl }

abbrev serving : DialEnv
serving = record {
  tls_config = true;
  dialled = true;
  settings = received;
  extended_connect = true;
  datagrams = true;
  ended = false;
}

abbrev connected : Client
connected = record fresh {
  shared = some 0;
  conns = λ c.
      if◌then◌else◌ (0 == c)
        (record { done = false; close_called = false; sessions = some (λ id. none) })
        (fresh.conns c);
  next_conn = 1;
}

connects : get_shared_conn serving fresh ≡ some (ok 0, connected)
unfolding get_shared_conn
connects = refl

abbrev opened : Client
opened = new_session rfc9000 0 4 connected

abbrev listed : Client
listed = with_sessions 0 (some (set_at (λ id. none) 4 (some 0))) opened

registers : register_session 0 opened ≡ ok listed
unfolding register_session new_session
registers = refl

listed-Reach : Reach fresh listed
unfolding new_session
listed-Reach =
    Reach.next
      (Reach.next (Reach.next Reach.here (Step.gets serving connects))
        (Step.opens rfc9000 0 4 refl))
      (Step.registers 0 (omega arith) refl registers)

client_stays-IsSound_example : IsSound listed
client_stays-IsSound_example = client_stays-IsSound fresh fresh-IsNew refl listed-Reach

-- The context of the caller ends before the settings are there.
abbrev too_late : DialEnv
too_late = record serving { settings = ctx_done }

get_shared_conn_blocks_example :
    ((get_shared_conn too_late fresh ≡ none) ↔ (
      (fresh.closed ≡ false)
      × (live_shared fresh fresh.shared ≡ none)
      × (too_late.tls_config ≡ true)
      × (too_late.dialled ≡ true)
      × (Serves too_late → ⊥)))
    × ((c : ℕ) (v : Client)
        → get_shared_conn too_late fresh ≡ some (ok c, v)
        → Gotten too_late fresh c v)
get_shared_conn_blocks_example = get_shared_conn_blocks too_late fresh

waits_for_itself : get_shared_conn too_late fresh ≡ none
unfolding get_shared_conn
waits_for_itself = refl

-- A new connection that ends along with its settings is returned and shared.
ended_run :
    Option.map
      (λ (r : Result ConnError ℕ × Client). r.0)
      (get_shared_conn (record serving { ended = true }) fresh)
    ≡ some (ok 0)
unfolding get_shared_conn
ended_run = refl

route_uni_stream_lists_example :
    ((id : ℕ) (rest : Bytes)
      → id < 2 ^ 62
      → route_uni_stream rfc9000 0
          (rfc9000.append [] web_transport_uni_stream_type ++ (rfc9000.append [] id ++ rest))
          listed
        ≡ elim (lookup_session 0 id listed) [ none ↦ session_gone | some s ↦ to_session s ])
    × ((bytes : Bytes) (s : ℕ)
        → route_uni_stream rfc9000 0 bytes listed ≡ to_session s
        → ((listed.session s).shared ≡ 0)
          × ((listed.session s).closed ≡ false)
          × ((choice : Bool) (stream : ℕ) → enqueue_uni_stream choice s stream listed ≢ panics))
    × ((s stream : ℕ)
        → (listed.session s).closed ≡ true
        → enqueue_uni_stream false s stream listed ≡ panics)
route_uni_stream_lists_example =
    route_uni_stream_lists rfc9000 0 listed client_stays-IsSound_example

routes_run : route_uni_stream rfc9000 0 (64 ∷ 84 ∷ 4 ∷ 9 ∷ []) listed ≡ to_session 0
unfolding route_uni_stream new_session
routes_run = refl
