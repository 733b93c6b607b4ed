-- ===== src/Proxy/Serving.antt =====
-- internal/proxy/proxy.go: a round of `Serve`, with the whole of `getOrCreateSession` and `sessionSeed`,
-- without the counters of packets and bytes. What other goroutines do between the two critical sections
-- of `getOrCreateSession` is the argument `between`, and what they do between its end and the packet's way
-- into the channel is `meanwhile`.
pub mod Rounds
mod Tests
use Prim.Native.Nat.{bit_xor}
use quixiot.Prelude.{
  ℕ, suc, ◌+◌, ◌-◌, ◌*◌, ◌%◌, ◌^◌, Bool, true, false, not, ◌||◌, List, [], ◌∷◌, ◌++◌, Bytes, Option,
  none, some, ltb, if◌then◌else◌, Result, ok, err, guard, or_fail, ◌>>=◌, ◌>>◌,
}
use quixiot.Prelude.Int.{ℤ, pos, negsuc}
use quixiot.Prelude.Strings.{codes}
use quixiot.Impair.Config.{Profile, ConfigError}
use quixiot.Impair.Pipeline.{Pipeline, new_pipeline_with_hooks}
use quixiot.Loops.{pipeline_hooks}
use quixiot.Proxy.{
  Proxy, find_session, make_session, insert_session, close_session, enqueue_incoming, EnqueueError,
  err_closed, err_session_queue_full,
}

-- `fnv.New64a`, from a hash on.
fnv64a : ℕ → Bytes → ℕ
fnv64a h [] = h
fnv64a h (b ∷ rest) = fnv64a (bit_xor h b * 1099511628211 % 2 ^ 64) rest

-- The int64 of a bit pattern, and the pattern of an int64.
signed : ℕ → ℤ
signed n = if ltb n (2 ^ 63) then pos n else negsuc (2 ^ 64 - 1 - n)

pattern_of : ℤ → ℕ
pattern_of (pos n) = n
pattern_of (negsuc n) = 2 ^ 64 - 1 - n

-- `sessionSeed`, of the text of the client's address.
pub session_seed : ℤ → Bytes → Bytes → ℤ
unfolding fnv64a signed pattern_of
session_seed base key direction =
    signed (bit_xor (fnv64a 14695981039346656037 (key ++ (0 ∷ direction))) (pattern_of base))

pub data SessionError : Type 0 where
  dial_failed buffer_failed : SessionError
  bad_pipeline : ConfigError → SessionError

-- What the system answers, the text of each client's address, and the random generator's draws from a
-- seed.
pub record System : Type 0 where
  pub dialled : Bool
  pub buffer_set : Bool
  pub key_text : ℕ → Bytes
  pub source : ℤ → ℕ → ℕ

as_session_error : Result ConfigError Pipeline → Result SessionError Pipeline
as_session_error (ok p) = ok p
as_session_error (err e) = err (bad_pipeline e)

-- The two pipelines of a new session; a socket that was opened is closed on an error.
pub make_pipelines : System → ℕ → Profile → Bool → Result SessionError (Pipeline × Pipeline)
unfolding as_session_error
make_pipelines y key profile metrics = do
  guard y.dialled dial_failed
  guard y.buffer_set buffer_failed
  to_server ← as_session_error (
      new_pipeline_with_hooks y.source profile.to_server
        (session_seed profile.seed (y.key_text key) (codes "to-server")) (pipeline_hooks metrics))
  to_client ← as_session_error (
      new_pipeline_with_hooks y.source profile.to_client
        (session_seed profile.seed (y.key_text key) (codes "to-client")) (pipeline_hooks metrics))
  ok (to_server, to_client)

-- `getOrCreateSession`: the proxy behind it, and the session.
create_session :
    System
    → (Proxy → Proxy)
    → ℕ
    → ℕ
    → Proxy
    → Result SessionError (Pipeline × Pipeline)
    → Proxy × Result SessionError ℕ
create_session y between key now p (err e) = (p, err e)
create_session y between key now p (ok pipelines) =
    let (q, s) = insert_session key p.next (between (make_session key now p)) in (q, ok s)

found_or_created :
    System → (Proxy → Proxy) → ℕ → ℕ → Proxy → Option ℕ → Proxy × Result SessionError ℕ
unfolding create_session make_pipelines
found_or_created y between key now p (some s) = (p, ok s)
found_or_created y between key now p none =
    create_session y between key now p (make_pipelines y key p.profile p.metrics)

pub get_or_create_session : System → (Proxy → Proxy) → ℕ → ℕ → Proxy → Proxy × Result SessionError ℕ
unfolding found_or_created
get_or_create_session y between key now p =
    found_or_created y between key now p (find_session key p)

-- What a round of `Serve` reads: an error, a packet from an address that cannot be used, or a packet.
pub data Incoming : Type 0 where
  read_error no_address : Incoming
  packet : ℕ → Bytes → Incoming

-- How a round ends: the loop goes on, behind a packet that was taken or dropped, or `Serve` returns.
pub data Verdict : Type 0 where
  took dropped returns_nil returns_error : Verdict

pub enqueued : Bool → ℕ → Bytes → Proxy → Result EnqueueError Proxy → Proxy × Verdict
enqueued closed s content p (ok q) = (q, took)
enqueued closed s content p (err e) = (p, if closed then returns_nil else dropped)

pub on_session : Bool → Bytes → Proxy → Result SessionError ℕ → Proxy × Verdict
unfolding enqueued
on_session choice content p (err e) = (p, dropped)
on_session choice content p (ok s) =
    enqueued p.closed s content p (enqueue_incoming choice s content p)

-- `ended` tells if the read failed as its socket or the context was closed.
pub serve_round :
    System
    → (Proxy → Proxy)
    → (Proxy → Proxy)
    → Bool
    → Bool
    → ℕ
    → Incoming
    → Proxy
    → Proxy × Verdict
unfolding on_session get_or_create_session
serve_round y between meanwhile ended choice now read_error p =
    (p, if ended || p.closed then returns_nil else returns_error)
serve_round y between meanwhile ended choice now no_address p = (p, dropped)
serve_round y between meanwhile ended choice now (packet key content) p =
    let (q, s) = get_or_create_session y between key now p in
    on_session choice content (meanwhile q) s
