-- ===== src/SharedConn/Locking.antt =====
-- When `getSharedConn` returns.
use quixiot.Prelude.{
  ℕ, ◌≡◌, ◌↔◌, refl, ap, sym, subst, ◌∙◌, true, false, Option, none, some, Result, ok, err, arith,
  Bool-cases, ◌⊎◌, inl, inr,
}
use quixiot.SharedConn.{
  Client, ConnError, SettingsEvent, received, ctx_done, conn_done, DialEnv, close_conn, failing,
  settle, add_conn, new_shared_conn, dial_shared, live_shared, use_shared, get_shared_conn,
}
use quixiot.SharedConn.Lifecycle.{new_shared_conn_ok}

-- The peer's settings came, and allow what the client needs.
abbrev pub Serves : DialEnv → Type 0
Serves env = (env.settings ≡ received) × (env.extended_connect ≡ true) × (env.datagrams ≡ true)

-- On a connection that no one closes yet, under the lock.
settle_blocks :
    (env : DialEnv) (c : ℕ) (w : Client) (x : SettingsEvent)
    → (w.conns c).close_called ≡ false
    → (settle true env c w x ≡ none)
      ↔ ((x ≡ received) × (env.extended_connect ≡ true) × (env.datagrams ≡ true) → ⊥)
unfolding settle close_conn failing
settle_blocks env c w ctx_done new = (λ e g. cc (g.0), λ g. rw new)
settle_blocks env c w conn_done new = (λ e g. cc (g.0), λ g. rw new)
settle_blocks env c w received new = elim (Bool-cases env.extended_connect) [
  | inr n ↦ (λ e g. cc (n, g.1), λ g. rw (n, new) refl)
  | inl y ↦ elim (Bool-cases env.datagrams) [
    | inr n ↦ (λ e g. cc (n, g.2), λ g. rw (y, n, new) refl)
    | inl z ↦ (λ e g. ground (arith, e, y, z), λ g. absurd (g (refl, y, z)))
  ]
]

dial_shared-none : (o : Option (Result ConnError ℕ × Client)) → (dial_shared o ≡ none) ↔ (o ≡ none)
unfolding dial_shared
dial_shared-none none = (λ e. e, λ e. e)
dial_shared-none (some (err e, w)) = (λ e. cc, λ e. cc)
dial_shared-none (some (ok c, w)) = (λ e. cc, λ e. cc)

new_shared_conn_blocks :
    (env : DialEnv) (w : Client)
    → (new_shared_conn true env w ≡ none)
      ↔ ((env.tls_config ≡ true) × (env.dialled ≡ true) × (Serves env → ⊥))
unfolding new_shared_conn
new_shared_conn_blocks env w = elim (Bool-cases env.tls_config) [
  | inr n ↦ (λ e. absurd (ground (arith, e, n)), λ g. absurd (cc (n, g.0)))
  | inl y ↦ elim (Bool-cases env.dialled) [
    | inr n ↦ (λ e. absurd (ground (arith, e, y, n)), λ g. absurd (cc (n, g.1)))
    | inl z ↦
        let (to, from) =
          settle_blocks env w.next_conn (add_conn env w) env.settings (ground arith) in
        (λ e. (y, z, to (ground (arith, e, y, z))), λ g. rw (y, z) (from g.2))
  ]
]

-- A connection that was got: it is shared by a client that is not closed, and was so before and has not
-- ended, or is a new one, which may have ended behind its settings.
abbrev pub Gotten : DialEnv → Client → ℕ → Client → Type 0
Gotten env w c v =
    (v.shared ≡ some c)
    × (v.closed ≡ false)
    × ((w.shared ≡ some c) × ((v.conns c).done ≡ false)
        ⊎ (c ≡ w.next_conn) × ((v.conns c).done ≡ env.ended))

dial_shared_ok :
    (o : Option (Result ConnError ℕ × Client)) {c : ℕ} {v : Client}
    → dial_shared o ≡ some (ok c, v)
    → (u : Client) × (o ≡ some (ok c, u)) × (v ≡ record u { shared = some c })
unfolding dial_shared
dial_shared_ok none e = cc
dial_shared_ok (some (err x, u)) e = cc
dial_shared_ok (some (ok d, u)) e = (u, ground (arith, e), ground (arith, e))

use_shared_ok :
    (env : DialEnv) (w : Client) (o : Option ℕ) (c : ℕ) (v : Client)
    → w.closed ≡ false
    → ((d : ℕ) → o ≡ some d → (w.shared ≡ some d) × ((w.conns d).done ≡ false))
    → use_shared env w o ≡ some (ok c, v)
    → Gotten env w c v
unfolding use_shared
use_shared_ok env w (some d) c v on live e =
    let same : record w { shared = some c } ≡ v = ground (arith, e) in
    subst (Gotten env w c) same (refl, on, inl (live c (ground (arith, e))))
use_shared_ok env w none c v on live e =
    let (u, made, same) =
      dial_shared_ok (new_shared_conn true env (record w { shared = none })) e in
    let (at_next, added) = new_shared_conn_ok true env (record w { shared = none }) made in
    let whole : v ≡ record (add_conn env (record w { shared = none })) { shared = some c } =
      same ∙ ap (λ (x : Client). record x { shared = some c }) added in
    subst (Gotten env w c) (sym whole) (refl, on, inr (at_next, ground (arith, at_next)))

live_shared_live :
    (w : Client) (o : Option ℕ) (d : ℕ)
    → live_shared w o ≡ some d
    → (o ≡ some d) × ((w.conns d).done ≡ false)
unfolding live_shared
live_shared_live w none d e = cc
live_shared_live w (some c) d e = elim (Bool-cases (w.conns c).done) [
  | inl y ↦ absurd (ground (arith, e, y))
  | inr n ↦
      let same : c ≡ d = ground (arith, e, n) in
      (ap some same, subst (λ k. (w.conns k).done ≡ false) same n)
]

use_shared_blocks :
    (env : DialEnv) (w : Client) (o : Option ℕ)
    → (use_shared env w o ≡ none)
      ↔ ((o ≡ none) × (env.tls_config ≡ true) × (env.dialled ≡ true) × (Serves env → ⊥))
unfolding use_shared
use_shared_blocks env w (some c) = (λ e. cc, λ g. cc (g.0))
use_shared_blocks env w none =
    let u = record w { shared = none } in
    let (to, from) = new_shared_conn_blocks env u in
    let (down, up) = dial_shared-none (new_shared_conn true env u) in
    (λ e. let (a, b, c) = to (down e) in (refl, a, b, c), λ g. up (from (g.1, g.2, g.3)))

-- `getSharedConn` returns in all cases but one: on a client that is not closed and has no live connection
-- to share, where the dialling worked and then the settings did not come or do not allow what the client
-- needs, it waits for ever for the lock that it holds. A connection that it returns is the shared one
-- of a client that is not closed: either it was shared before and has not ended, or it is the new one,
-- which may have ended by then.
pub get_shared_conn_blocks :
    (env : DialEnv) (w : Client)
    → ((get_shared_conn env w ≡ none) ↔ (
        (w.closed ≡ false)
        × (live_shared w w.shared ≡ none)
        × (env.tls_config ≡ true)
        × (env.dialled ≡ true)
        × (Serves env → ⊥)))
      × ((c : ℕ) (v : Client) → get_shared_conn env w ≡ some (ok c, v) → Gotten env w c v)
unfolding get_shared_conn
get_shared_conn_blocks env w = elim (Bool-cases w.closed) [
  | inl y ↦ (
    (λ e. absurd (ground (arith, e, y)), λ g. absurd (cc (y, g.0))),
    λ c v e. absurd (ground (arith, e, y)),
  )
  | inr n ↦
      let (to, from) = use_shared_blocks env w (live_shared w w.shared) in
      (
        (
          λ e. let (a, b, c, d) = to (ground (arith, e, n)) in (n, a, b, c, d),
          λ g. simp n (from (g.1, g.2, g.3, g.4)),
        ),
        λ c v e.
            use_shared_ok env w (live_shared w w.shared) c v n (live_shared_live w w.shared)
              (ground (arith, e, n)),
      )
]
