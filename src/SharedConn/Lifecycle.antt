-- ===== src/SharedConn/Lifecycle.antt =====
-- All that happens to a client's connections and sessions.
use quixiot.Prelude.{
  ℕ, ◌≡◌, ◌≢◌, refl, ap, ◌∙◌, subst, Bool, true, Option, none, some, ◌==◌, Result, ok, arith,
  Bool-cases, Option-cases, inl, inr,
}
use quixiot.SharedConn.{
  Client, ConnError, no_extended_connect, no_datagrams, SettingsEvent, received, ctx_done,
  conn_done, DialEnv, session_at, is_registered, drop_sessions, close_sessions, end_conn,
  begin_close, close_conn, failing, settle, add_conn, new_shared_conn,
}
use quixiot.SharedConn.Registry.{
  IsSound, Unlisted, close_sessions-IsSound, drop_sessions-IsSound, end_conn-IsSound,
  begin_close-IsSound, clear_shared-IsSound,
}

-- A session of the snapshot is in no map once its connection's map is gone.
snapshot-Unlisted :
    (c s : ℕ) (w : Client)
    → IsSound w
    → is_registered c s w ≡ true
    → Unlisted s (drop_sessions c (begin_close c w))
unfolding is_registered drop_sessions begin_close
snapshot-Unlisted c s w h in_map d id e =
    let t = w.session s in
    elim (Option-cases (session_at (w.conns c).sessions t.session_id)) [
      | inl n ↦ absurd (ground (arith, in_map, n))
      | inr (r, n) ↦
          let same : r ≡ s = ground (arith, in_map, n) in
          let (_, own, _, _) = h.listed c t.session_id s (n ∙ ap some same) in
          elim (Bool-cases (c == d)) [
            | inl hit ↦ absurd (ground (arith, e, hit))
            | inr miss ↦ absurd (ground (arith, e, miss, own, h.listed d id s))
          ]
    ]

pub close_conn-IsSound :
    (held : Bool) (c : ℕ) (w v : Client) → close_conn held c w ≡ some v → IsSound w → IsSound v
unfolding close_conn
close_conn-IsSound held c w v e h =
    let begun = begin_close c w in
    let dropped = drop_sessions c begun in
    let shut = close_sessions (λ s. is_registered c s w) dropped in
    let dropped-IsSound = drop_sessions-IsSound c begun (begin_close-IsSound c w h) in
    let shut-IsSound =
      close_sessions-IsSound (λ s. is_registered c s w) dropped (λ s r. snapshot-Unlisted c s w h r)
        dropped-IsSound in
    let whole = clear_shared-IsSound c (end_conn c shut) (end_conn-IsSound c shut shut-IsSound) in
    elim (Bool-cases (w.conns c).close_called) [
      | inl old ↦ subst IsSound (ground (arith, e, old)) h
      | inr new ↦ elim (Bool-cases held) [
        | inl y ↦ absurd (ground (arith, e, new, y))
        | inr n ↦ subst IsSound (ground (arith, e, new, n)) whole
      ]
    ]

failing-IsSound :
    (o : Option Client) (x : ConnError) (r : Result ConnError ℕ) (v : Client)
    → failing o x ≡ some (r, v)
    → ((u : Client) → o ≡ some u → IsSound u)
    → IsSound v
unfolding failing
failing-IsSound none x r v e h = cc
failing-IsSound (some u) x r v e h = subst IsSound (ground (arith, e)) (h u refl)

settle-IsSound :
    (held : Bool) (env : DialEnv) (c : ℕ) (w : Client) (x : SettingsEvent) (r : Result ConnError ℕ)
    (v : Client)
    → settle held env c w x ≡ some (r, v)
    → IsSound w
    → IsSound v
unfolding settle
settle-IsSound held env c w ctx_done r v e h =
    failing-IsSound _ _ r v e (λ u k. close_conn-IsSound held c w u k h)
settle-IsSound held env c w conn_done r v e h =
    failing-IsSound _ _ r v e (λ u k. close_conn-IsSound held c w u k h)
settle-IsSound held env c w received r v e h = elim (Bool-cases env.extended_connect) [
  | inr n ↦
      failing-IsSound (close_conn held c w) no_extended_connect r v (ground (arith, e, n))
        (λ u k. close_conn-IsSound held c w u k h)
  | inl y ↦ elim (Bool-cases env.datagrams) [
    | inr n ↦
        failing-IsSound (close_conn held c w) no_datagrams r v (ground (arith, e, y, n))
          (λ u k. close_conn-IsSound held c w u k h)
    | inl z ↦ subst IsSound (ground (arith, e, y, z)) h
  ]
]

failing_no_ok :
    (o : Option Client) (x : ConnError) {c : ℕ} {v : Client} → failing o x ≢ some (ok c, v)
unfolding failing
failing_no_ok none x e = cc
failing_no_ok (some u) x e = cc

-- Only a connection that got all it needs is given out, and nothing happens on the way.
settle_ok :
    (held : Bool) (env : DialEnv) (c : ℕ) (w : Client) (x : SettingsEvent) {d : ℕ} {v : Client}
    → settle held env c w x ≡ some (ok d, v)
    → (d ≡ c) × (v ≡ w)
unfolding settle
settle_ok held env c w ctx_done e = absurd (failing_no_ok (close_conn held c w) _ e)
settle_ok held env c w conn_done e = absurd (failing_no_ok (close_conn held c w) _ e)
settle_ok held env c w received {d} {v} e = elim (Bool-cases env.extended_connect) [
  | inr n ↦ absurd (
      failing_no_ok (close_conn held c w) no_extended_connect {c = d} {v = v}
        (ground (arith, e, n)))
  | inl y ↦ elim (Bool-cases env.datagrams) [
    | inr n ↦
        absurd (
          failing_no_ok (close_conn held c w) no_datagrams {c = d} {v = v}
            (ground (arith, e, y, n)))
    | inl z ↦ ground (arith, e, y, z)
  ]
]

add_conn-IsSound : (env : DialEnv) (w : Client) → IsSound w → IsSound (add_conn env w)
add_conn-IsSound env w h = record {
  listed = λ c id s e. ground (arith, e, h.listed c id s);
  caused = h.caused;
  shut_client = h.shut_client;
}

pub new_shared_conn-IsSound :
    (held : Bool) (env : DialEnv) (w : Client) (r : Result ConnError ℕ) (v : Client)
    → new_shared_conn held env w ≡ some (r, v)
    → IsSound w
    → IsSound v
unfolding new_shared_conn
new_shared_conn-IsSound held env w r v e h = elim (Bool-cases env.tls_config) [
  | inr n ↦ subst IsSound (ground (arith, e, n)) h
  | inl y ↦ elim (Bool-cases env.dialled) [
    | inr n ↦ subst IsSound (ground (arith, e, y, n)) h
    | inl z ↦
        settle-IsSound held env w.next_conn (add_conn env w) env.settings r v
          (ground (arith, e, y, z)) (add_conn-IsSound env w h)
  ]
]

pub new_shared_conn_ok :
    (held : Bool) (env : DialEnv) (w : Client) {d : ℕ} {v : Client}
    → new_shared_conn held env w ≡ some (ok d, v)
    → (d ≡ w.next_conn) × (v ≡ add_conn env w)
unfolding new_shared_conn
new_shared_conn_ok held env w {d} {v} e = elim (Bool-cases env.tls_config) [
  | inr n ↦ absurd (ground (arith, e, n))
  | inl y ↦ elim (Bool-cases env.dialled) [
    | inr n ↦ absurd (ground (arith, e, y, n))
    | inl z ↦ settle_ok held env w.next_conn (add_conn env w) env.settings (ground (arith, e, y, z))
  ]
]
