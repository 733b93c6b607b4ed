-- ===== src/Proxy/Serving/Rounds.antt =====
-- internal/proxy/proxy.go (`Serve`, `getOrCreateSession`): the session that a packet of a client comes to.
use quixiot.Prelude.{
  ℕ, ◌<◌, ◌≤◌, ◌≡◌, ◌⊎◌, inl, inr, refl, ap, ◌∙◌, Bool, true, false, [], ◌∷◌, ◌++◌, Bytes, some,
  length, ltb, ◌==◌, if◌then◌else◌, Bool-cases, Option-cases, ok, arith,
}
use quixiot.Prelude.Int.{ℤ}
use quixiot.Prelude.Strings.{codes}
use quixiot.Impair.Config.{Profile, DirectionConfig, validate, in_direction}
use quixiot.Impair.Config.Valid.{validate_iff, IsValidDirection, validate_direction_complete}
use quixiot.Impair.Pipeline.{Pipeline, Hooks, new_pipeline_with_hooks}
use quixiot.Loops.{pipeline_hooks}
use quixiot.Proxy.{
  Proxy, queue_depth, make_session, insert_session, insert_found, close_session, enqueue_incoming,
}
use quixiot.Proxy.Sessions.{IsSound}
use quixiot.Proxy.Serving.{
  System, session_seed, make_pipelines, as_session_error, create_session, found_or_created,
  get_or_create_session, packet, Verdict, took, dropped, returns_nil, enqueued, on_session,
  serve_round,
}

-- The session `s` is the one that the table lists under the key, and it is open.
pub record Serves (key s : ℕ) (p : Proxy) : Type 0 where
  pub listed : p.sessions key ≡ some s
  pub own : (p.session s).key ≡ key
  pub runs : (p.session s).done ≡ false

-- A profile that passed `Validate` gives pipelines.
pipeline_made :
    (y : System) (c : DirectionConfig) (seed : ℤ) (hooks : Hooks)
    → IsValidDirection c
    → (p : Pipeline) × (as_session_error (new_pipeline_with_hooks y.source c seed hooks) ≡ ok p)
unfolding new_pipeline_with_hooks as_session_error
pipeline_made y c seed hooks h = rw (validate_direction_complete in_direction c h) (_, refl)

make_pipelines_valid :
    (y : System) (key : ℕ) (profile : Profile) (metrics : Bool)
    → y.dialled ≡ true
    → y.buffer_set ≡ true
    → validate profile ≡ ok tt
    → (x : Pipeline × Pipeline) × (make_pipelines y key profile metrics ≡ ok x)
unfolding make_pipelines
make_pipelines_valid y key profile metrics dialled buffer valid =
    let (to_server, to_client) = (validate_iff profile).0 valid in
    let (a, made_a) =
      pipeline_made y profile.to_server
        (session_seed profile.seed (y.key_text key) (codes "to-server")) (pipeline_hooks metrics)
        to_server in
    let (b, made_b) =
      pipeline_made y profile.to_client
        (session_seed profile.seed (y.key_text key) (codes "to-client")) (pipeline_hooks metrics)
        to_client in
    ((a, b), simp (dialled, buffer, made_a, made_b))

left_apart :
    (key s r : ℕ) (p : Proxy)
    → p.sessions key ≡ some r
    → (p.sessions key ≡ some s → ⊥)
    → (s == r) ≡ false
left_apart key s r p old free = elim (Bool-cases (s == r)) [
  | inl e ↦ absurd (free (old ∙ ap some (ground (arith, e))))
  | inr e ↦ e
]

-- The last step of a creation.
insert_session-Serves :
    (key s : ℕ) (p : Proxy)
    → IsSound p
    → (p.session s).key ≡ key
    → (p.session s).done ≡ false
    → ((k : ℕ) → p.sessions k ≡ some s → ⊥)
    → let (q, chosen) = insert_session key s p in Serves key chosen q
unfolding insert_session insert_found close_session
insert_session-Serves key s p h own runs free = elim (Option-cases (p.sessions key)) [
  | inl new ↦
      rw (new, insert_session, insert_found)
        (record { listed = ground arith; own = own; runs = runs })
  | inr (r, old) ↦
      let (_, r_own, r_runs) = h.listed key r old in
      let other : (s == r) ≡ false = left_apart key s r p old (free key) in
      rw (old, insert_session, insert_found, runs)
        (record {
          listed = old;
          own = ground (arith, other, r_own);
          runs = ground (arith, other, r_runs);
        })
]

-- What the first critical section of a creation and the work between it and the second leave: a table
-- that is sound, with the new session open, under its key, and unlisted.
pub record IsReady (key s : ℕ) (p : Proxy) : Type 0 where
  pub sound : IsSound p
  pub own : (p.session s).key ≡ key
  pub runs : (p.session s).done ≡ false
  pub unlisted : (k : ℕ) → p.sessions k ≡ some s → ⊥

get_or_create_session-Serves :
    (y : System) (between : Proxy → Proxy) (key now : ℕ) (p : Proxy)
    → y.dialled ≡ true
    → y.buffer_set ≡ true
    → validate p.profile ≡ ok tt
    → IsSound p
    → IsReady key p.next (between (make_session key now p))
    → (q : Proxy) × (s : ℕ) × (get_or_create_session y between key now p ≡ (q, ok s))
      × Serves key s q
unfolding get_or_create_session found_or_created create_session
get_or_create_session-Serves y between key now p dialled buffer valid h ready =
    elim (Option-cases (p.sessions key)) [
      | inl new ↦
          let (x, made) = make_pipelines_valid y key p.profile p.metrics dialled buffer valid in
          let done = insert_session key p.next (between (make_session key now p)) in
          (
            done.0,
            done.1,
            rw (new, found_or_created, made, create_session) refl,
            insert_session-Serves key p.next (between (make_session key now p)) ready.sound
                ready.own ready.runs ready.unlisted,
          )
      | inr (s, old) ↦
          let (_, own, runs) = h.listed key s old in
          (p, s, rw (old, found_or_created) refl, record { listed = old; own = own; runs = runs })
    ]

-- How a packet meets the channel of its session: at its end, which takes room, or dropped, or seen as the
-- end of a closed proxy, where the channel is full or the session was closed meanwhile.
pub Delivered : ℕ → Bytes → Proxy → Proxy → Verdict → Type 0
Delivered s content before after v =
    (v ≡ took)
      × (length (before.session s).incoming < queue_depth)
      × ((after.session s).incoming ≡ (before.session s).incoming ++ content ∷ [])
    ⊎ (v ≡ (if before.closed then returns_nil else dropped))
      × ((queue_depth ≤ length (before.session s).incoming) ⊎ ((before.session s).done ≡ true))
      × (after ≡ before)

on_session-Delivered :
    (choice : Bool) (content : Bytes) (s : ℕ) (p : Proxy)
    → let (q, v) = on_session choice content p (ok s) in Delivered s content p q v
unfolding on_session enqueued enqueue_incoming Delivered
on_session-Delivered choice content s p =
    elim (Bool-cases (ltb (length (p.session s).incoming) queue_depth)) [
      | inl room ↦ elim (Bool-cases (p.session s).done) [
        | inl over ↦ elim (Bool-cases choice) [
          | inl y ↦ rw (room, over, y) (inr (refl, inr refl, refl))
          | inr n ↦ rw (room, over, n) (inl (refl, ground (arith, room), ground arith))
        ]
        | inr on ↦ rw (room, on) (inl (refl, ground (arith, room), ground arith))
      ]
      | inr full ↦ elim (Bool-cases (p.session s).done) [
        | inl over ↦ elim (Bool-cases choice) [
          | inl y ↦ rw (full, over, y) (inr (refl, inr refl, refl))
          | inr n ↦ rw (full, over, n) (inr (refl, inr refl, refl))
        ]
        | inr on ↦ rw (full, on) (inr (refl, inl (ground (arith, full)), refl))
      ]
    ]

-- Where the upstream socket opens and takes its buffer size, the profile passes `Validate`, the table is
-- sound, and the work of others between the two critical sections keeps it so and leaves the new session
-- alone, a round of `Serve` that reads a packet finds or creates the one session that the table lists under
-- the client's address, which is open. Whatever others do then, the packet is the last one in that
-- session's channel, or, where the channel is full or the session was closed meanwhile, the packet is
-- dropped, unless the proxy is closed, where `Serve` returns.
pub serve_round-Delivered :
    (y : System) (between meanwhile : Proxy → Proxy) (ended choice : Bool) (key now : ℕ)
    (content : Bytes) (p : Proxy)
    → y.dialled ≡ true
    → y.buffer_set ≡ true
    → validate p.profile ≡ ok tt
    → IsSound p
    → IsReady key p.next (between (make_session key now p))
    → (q : Proxy) × (s : ℕ) × (get_or_create_session y between key now p ≡ (q, ok s))
      × Serves key s q
      × (let (after, v) = serve_round y between meanwhile ended choice now (packet key content) p in
          Delivered s content (meanwhile q) after v)
unfolding serve_round
serve_round-Delivered y between meanwhile ended choice key now content p dialled buffer valid h
      ready =
    let (q, s, made, serves) =
      get_or_create_session-Serves y between key now p dialled buffer valid h ready in
    (q, s, made, serves, rw made (on_session-Delivered choice content s (meanwhile q)))
