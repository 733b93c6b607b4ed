-- ===== src/Proxy/Closing.antt =====
-- internal/proxy/proxy.go: `Close` and `session.close` with their errors, where nothing falls between
-- the steps. `order` is the order in which the range over the table gives the keys; a socket's
-- `Close` is a parameter for each session, and so is `errors.Is(err, net.ErrClosed)`.
pub mod Closed
use quixiot.Prelude.{
  ℕ, Bool, true, false, List, [], ◌∷◌, Option, none, some, if◌then◌else◌, first_error,
}
use quixiot.Proxy.{Proxy, put, close_session, close_table}

-- The sessions that the range over the table takes out of it.
take_found : ℕ → Option ℕ → List ℕ → List ℕ
take_found key none rest = rest
take_found key (some s) rest = s ∷ rest

take_listed : List ℕ → (ℕ → Option ℕ) → List ℕ
unfolding take_found
take_listed [] sessions = []
take_listed (key ∷ keys) sessions =
    take_found key (sessions key) (take_listed keys (put sessions key none))

-- An error of a socket's `Close`, where the socket was not closed already.
pub reported {ℓ} : {E : Type ℓ} → (E → Bool) → Option E → Option E
reported is_closed none = none
reported is_closed (some e) = if is_closed e then none else some e

module _ {ℓ} {E : Type ℓ} (is_closed : E → Bool) (close_upstream : ℕ → Option E)
    (close_listen : Option E) where
  -- `session.close`, which returns no error where an earlier call has closed the session.
  close_reporting : ℕ → Proxy → Proxy × Option E
  unfolding reported
  close_reporting s p = (
    close_session s p,
    if (p.session s).done then none else reported is_closed (close_upstream s),
  )

  close_each : List ℕ → Proxy → Option E → Proxy × Option E
  unfolding close_reporting
  close_each [] p e = (p, e)
  close_each (s ∷ rest) p e =
      let (q, f) = close_reporting s p in close_each rest q (first_error e f)

  -- `Close`. The channel `closed` is closed in the one call that `closeOnce` lets through.
  unfoldable pub close : List ℕ → Proxy → Proxy × Option E
  unfolding close_each take_listed reported
  close order p =
      if p.closed
      then (p, none)
      else let (q, e) = close_each (take_listed order p.sessions) (close_table p) none in
        (q, first_error e (reported is_closed close_listen))
