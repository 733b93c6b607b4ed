-- ===== src/SharedConn/Reachable.antt =====
-- The states that a client comes to.
use quixiot.Prelude.{
  ℕ, ◌<◌, ◌≡◌, refl, ap, sym, subst, Bool, true, false, Option, none, some, Result, ok, err, arith,
  Bool-cases, inl, inr,
}
use quixiot.Wire.{Varint}
use quixiot.SharedConn.{
  Cause, session_at, Client, ConnError, DialEnv, register_session, close_with_cause, new_session,
  drop_sessions, close_sessions, end_conn, clear_shared, begin_close, close_conn, new_shared_conn,
  dial_shared, live_shared, use_shared, get_shared_conn, queued, enqueue_uni_stream, close_client,
  close_taken,
}
use quixiot.SharedConn.Registry.{
  IsSound, Unlisted, register_session-IsSound, new_session-IsSound, close_with_cause-IsSound,
  close_sessions-IsSound, drop_sessions-IsSound, end_conn-IsSound, begin_close-IsSound,
  clear_shared-IsSound, enqueue_uni_stream-IsSound, same_lists-IsSound,
}
use quixiot.SharedConn.Lifecycle.{close_conn-IsSound, new_shared_conn-IsSound, new_shared_conn_ok}

-- Another connection to share, for a client that is not closed.
share-IsSound :
    (o : Option ℕ) (w : Client) → w.closed ≡ false → IsSound w → IsSound (record w { shared = o })
share-IsSound o w on h =
    same_lists-IsSound w _ (λ c id. refl) refl refl (λ e. absurd (ground (arith, e, on))) h

dial_shared-IsSound :
    (o : Option (Result ConnError ℕ × Client)) (r : Result ConnError ℕ) (v : Client)
    → dial_shared o ≡ some (r, v)
    → ((x : Result ConnError ℕ) (u : Client) → o ≡ some (x, u) → IsSound u)
    → ((c : ℕ) (u : Client) → o ≡ some (ok c, u) → u.closed ≡ false)
    → IsSound v
unfolding dial_shared
dial_shared-IsSound none r v e h on = cc
dial_shared-IsSound (some (err x, u)) r v e h on =
    subst IsSound (ground (arith, e)) (h (err x) u refl)
dial_shared-IsSound (some (ok c, u)) r v e h on =
    subst IsSound (ground (arith, e)) (share-IsSound (some c) u (on c u refl) (h (ok c) u refl))

use_shared-IsSound :
    (env : DialEnv) (w : Client) (o : Option ℕ) (r : Result ConnError ℕ) (v : Client)
    → w.closed ≡ false
    → use_shared env w o ≡ some (r, v)
    → IsSound w
    → IsSound v
unfolding use_shared
use_shared-IsSound env w (some c) r v on e h =
    subst IsSound (ground (arith, e)) (share-IsSound (some c) w on h)
use_shared-IsSound env w none r v on e h =
    let u = record w { shared = none } in
    dial_shared-IsSound (new_shared_conn true env u) r v e
      (λ x t k. new_shared_conn-IsSound true env u x t k (share-IsSound none w on h))
      (λ c t k. rw ((new_shared_conn_ok true env u k).1) on)

get_shared_conn-IsSound :
    (env : DialEnv) (w : Client) (r : Result ConnError ℕ) (v : Client)
    → get_shared_conn env w ≡ some (r, v)
    → IsSound w
    → IsSound v
unfolding get_shared_conn
get_shared_conn-IsSound env w r v e h = elim (Bool-cases w.closed) [
  | inl y ↦ subst IsSound (ground (arith, e, y)) h
  | inr n ↦ use_shared-IsSound env w (live_shared w w.shared) r v n (ground (arith, e, n)) h
]

close_client-IsSound : (w v : Client) → close_client w ≡ some v → IsSound w → IsSound v
unfolding close_client
close_client-IsSound w v e h =
    let u = record w { closed = true; shared = none } in
    taken w.shared u v e (same_lists-IsSound w u (λ c id. refl) refl refl (λ _. refl) h)
  where
    taken : (o : Option ℕ) (u v : Client) → close_taken o u ≡ some v → IsSound u → IsSound v
    taken none u v e k = subst IsSound (ground (arith, e)) k
    taken (some c) u v e k = close_conn-IsSound false c u v e k

-- What the goroutines of a client do. `sharedConn.close` is taken in its parts as well as whole, so that
-- other steps fall between its critical sections; the sessions that its snapshot holds are in no map any
-- more when it closes them.
pub data Step (w : Client) : Client → Type 0 where
  gets :
      {v : Client} {r : Result ConnError ℕ} (env : DialEnv)
      → get_shared_conn env w ≡ some (r, v)
      → Step w v
  opens : {v : Client} (q : Varint) (c id : ℕ) → v ≡ new_session q c id w → Step w v
  registers :
      {v : Client} (s : ℕ)
      → s < w.next_session
      → (w.session s).closed ≡ false
      → register_session s w ≡ ok v
      → Step w v
  closes_session : {v : Client} (e : Cause) (s : ℕ) → v ≡ close_with_cause e s w → Step w v
  delivers :
      {v : Client} (choice : Bool) (s stream : ℕ)
      → enqueue_uni_stream choice s stream w ≡ queued v
      → Step w v
  closes_conn : {v : Client} (c : ℕ) → close_conn false c w ≡ some v → Step w v
  begins_close : {v : Client} (c : ℕ) → v ≡ begin_close c w → Step w v
  drops : {v : Client} (c : ℕ) → v ≡ drop_sessions c w → Step w v
  closes_snapshot :
      {v : Client} (snapshot : ℕ → Bool)
      → ((s : ℕ) → snapshot s ≡ true → Unlisted s w)
      → v ≡ close_sessions snapshot w
      → Step w v
  ends : {v : Client} (c : ℕ) → v ≡ end_conn c w → Step w v
  clears : {v : Client} (c : ℕ) → v ≡ clear_shared c w → Step w v
  closes_client : {v : Client} → close_client w ≡ some v → Step w v

pub data Reach (w : Client) : Client → Type 0 where
  here : Reach w w
  next : {u v : Client} → Reach w u → Step u v → Reach w v

Step-IsSound : {w v : Client} → IsSound w → Step w v → IsSound v
Step-IsSound {w} {v} h (gets {r = r} env e) = get_shared_conn-IsSound env w r v e h
Step-IsSound {w} h (opens q c id e) = subst IsSound (sym e) (new_session-IsSound q c id w h)
Step-IsSound {w} {v} h (registers s lt on e) = register_session-IsSound s w v lt on e h
Step-IsSound {w} h (closes_session x s e) = subst IsSound (sym e) (close_with_cause-IsSound x s w h)
Step-IsSound {w} {v} h (delivers choice s stream e) =
    enqueue_uni_stream-IsSound choice s stream w v e h
Step-IsSound {w} {v} h (closes_conn c e) = close_conn-IsSound false c w v e h
Step-IsSound {w} h (begins_close c e) = subst IsSound (sym e) (begin_close-IsSound c w h)
Step-IsSound {w} h (drops c e) = subst IsSound (sym e) (drop_sessions-IsSound c w h)
Step-IsSound {w} h (closes_snapshot snapshot gone e) =
    subst IsSound (sym e) (close_sessions-IsSound snapshot w gone h)
Step-IsSound {w} h (ends c e) = subst IsSound (sym e) (end_conn-IsSound c w h)
Step-IsSound {w} h (clears c e) = subst IsSound (sym e) (clear_shared-IsSound c w h)
Step-IsSound {w} {v} h (closes_client e) = close_client-IsSound w v e h

Reach-IsSound : {w v : Client} → IsSound w → Reach w v → IsSound v
Reach-IsSound h here = h
Reach-IsSound h (next r st) = Step-IsSound (Reach-IsSound h r) st

-- A client that has made nothing yet.
pub record IsNew (w : Client) : Type 0 where
  pub no_sessions : w.next_session ≡ 0
  pub no_maps : (c : ℕ) → (w.conns c).sessions ≡ none
  pub no_closed : (s : ℕ) → (w.session s).closed ≡ false

-- In every state that a new client comes to, whatever its goroutines did in between: a session stands in a
-- connection's map only if it was made for this connection on the stream that is its key, and is not
-- closed; a session that is closed has a cause; and a client that is closed shares no connection.
pub client_stays-IsSound :
    (w : Client) → IsNew w → w.closed ≡ false → {v : Client} → Reach w v → IsSound v
client_stays-IsSound w new on = Reach-IsSound (record {
  listed = λ c id s e. absurd (ground (arith, e, ap (λ m. session_at m id) (new.no_maps c)));
  caused = λ s e. absurd (ground (arith, e, new.no_closed s));
  shut_client = λ e. absurd (ground (arith, e, on));
})
