-- ===== src/Proxy.antt =====
-- internal/proxy/proxy.go: the table of client sessions. A session is a number, its pointer, given out
-- by `next`; a client's address and port is a number too, its key. Each definition is what runs under
-- `sessionsMu`, or one atomic effect on a session, so that other goroutines' steps fall between them.
-- Times are the wall clock's, in nanoseconds.
pub mod Sessions
pub mod Shutdown
pub mod Serving
pub mod Relay
pub mod Closing
mod Tests
use quixiot.Prelude.{
  ℕ, zero, suc, ◌+◌, ◌-◌, ◌*◌, ◌<◌, Bool, true, false, not, ◌&&◌, ◌||◌, List, [], ◌∷◌, ◌++◌, Bytes,
  Option, none, some, length, ltb, leb, ◌==◌, if◌then◌else◌, Result, ok, err, ◌>>=◌, ◌>>◌, guard,
}
use quixiot.Prelude.Int.{ℤ, pos, leb_ℤ}
use quixiot.Impair.Config.{Profile, ConfigError, normalize_profile}

-- `defaultIdleTTL`, five minutes.
abbrev pub default_idle_ttl : ℤ
default_idle_ttl = pos 300000000000

abbrev pub queue_depth : ℕ
queue_depth = 256

pub record Session : Type 0 where
  pub key : ℕ
  pub last_seen : ℕ
  pub done : Bool
  pub incoming : List Bytes

-- `closed` is the channel of that name. The gauge of active sessions is `incs` less `decs`.
pub record Proxy : Type 0 where
  pub idle_timeout : ℤ
  pub profile : Profile
  pub metrics : Bool
  pub sessions : ℕ → Option ℕ
  pub session : ℕ → Session
  pub next : ℕ
  pub closed : Bool
  pub incs : ℕ
  pub decs : ℕ

pub data ProxyError : Type 0 where
  no_listen_conn no_upstream_addr set_read_buffer : ProxyError
  bad_profile : ConfigError → ProxyError

-- What `New` is given: which of the required options are set, and if the read buffer can be set.
pub record Options : Type 0 where
  pub listen_conn : Bool
  pub upstream_addr : Bool
  pub idle_timeout : ℤ
  pub profile : Profile
  pub metrics : Bool
  pub buffer_set : Bool

as_proxy_error : Result ConfigError Profile → Result ProxyError Profile
as_proxy_error (ok p) = ok p
as_proxy_error (err e) = err (bad_profile e)

abbrev unused : Session
unused = record { key = 0; last_seen = 0; done = false; incoming = [] }

unfoldable pub new_proxy : Options → Result ProxyError Proxy
unfolding as_proxy_error
new_proxy o = do
  guard o.listen_conn no_listen_conn
  guard o.upstream_addr no_upstream_addr
  profile ← as_proxy_error (normalize_profile o.profile)
  guard o.buffer_set set_read_buffer
  ok (record {
    idle_timeout = if leb_ℤ o.idle_timeout (pos 0) then default_idle_ttl else o.idle_timeout;
    profile = profile;
    metrics = o.metrics;
    sessions = λ _. none;
    session = λ _. unused;
    next = 0;
    closed = false;
    incs = 0;
    decs = 0;
  })

abbrev pub put {ℓ} : {V : Type ℓ} → (ℕ → V) → ℕ → V → ℕ → V
put m k v j = if k == j then v else m j

-- The first critical section of `getOrCreateSession`.
abbrev pub find_session : ℕ → Proxy → Option ℕ
find_session key p = p.sessions key

-- Behind it, where the upstream could be dialled: a session of its own, not in the table yet, seen
-- just now. It is `p.next`.
pub make_session : ℕ → ℕ → Proxy → Proxy
make_session key now p = record p {
  session =
      put p.session p.next (record { key = key; last_seen = now; done = false; incoming = [] });
  next = suc p.next;
  incs = if p.metrics then suc p.incs else p.incs;
}

-- `session.close`, of which `closeOnce` lets one call through.
pub close_session : ℕ → Proxy → Proxy
close_session s p = if (p.session s).done then p else record p {
  session = put p.session s (record (p.session s) { done = true });
  decs = if p.metrics then suc p.decs else p.decs;
}

-- The last critical section of `getOrCreateSession`, and the session to use.
insert_found : ℕ → ℕ → Proxy → Option ℕ → Proxy × ℕ
insert_found key s p (some existing) = (close_session s p, existing)
insert_found key s p none = (record p { sessions = put p.sessions key (some s) }, s)

pub insert_session : ℕ → ℕ → Proxy → Proxy × ℕ
unfolding insert_found
insert_session key s p = insert_found key s p (p.sessions key)

-- `removeSession`: the entry goes only if it is this session's.
is_current : ℕ → Option ℕ → Bool
is_current s none = false
is_current s (some r) = r == s

pub remove_session : ℕ → ℕ → Proxy → Proxy
unfolding is_current
remove_session key s p =
    close_session s
      (if is_current s (p.sessions key) then record p { sessions = put p.sessions key none } else p)

-- `touch`
pub touch : ℕ → ℕ → Proxy → Proxy
touch s now p = record p { session = put p.session s (record (p.session s) { last_seen = now }) }

-- `idleFor() > idleTimeout`; a clock that was set back gives no idle time.
is_idle : ℕ → ℕ → Proxy → Bool
is_idle now s p = not (leb_ℤ (pos (now - (p.session s).last_seen)) p.idle_timeout)

kept : ℕ → Proxy → Option ℕ → Option ℕ
unfolding is_idle
kept now p none = none
kept now p (some s) = if is_idle now s p then none else some s

-- The critical section of `sweepLoop`. The sessions that it takes from the table are closed next, one
-- by one, by `close_session`.
pub sweep : ℕ → Proxy → Proxy
unfolding kept
sweep now p = record p { sessions = λ key. kept now p (p.sessions key) }

-- `Close`, up to the closing of the sessions that it took from the table; the second call does
-- nothing.
pub close_table : Proxy → Proxy
close_table p = if p.closed then p else record p { closed = true; sessions = λ _. none }

pub data EnqueueError : Type 0 where
  err_closed err_session_queue_full : EnqueueError

-- `enqueueIncoming`. Where the session is done and its channel has room, Go may take either case:
-- `choice` tells which.
pub enqueue_incoming : Bool → ℕ → Bytes → Proxy → Result EnqueueError Proxy
enqueue_incoming choice s packet p =
    let q = p.session s in
    let room = ltb (length q.incoming) queue_depth in
    if q.done && (choice || not room)
    then err err_closed
    else if room
    then ok
        (record p { session = put p.session s (record q { incoming = q.incoming ++ packet ∷ [] }) })
    else err err_session_queue_full
