-- ===== src/Proxy/Shutdown.antt =====
-- A session that is inserted while the proxy closes.
use quixiot.Prelude.{ℕ, ◌≡◌, refl, false, none, some, arith}
use quixiot.Proxy.{Proxy, find_session, insert_session, insert_found, close_table}

-- After `Close` the table is empty. `getOrCreateSession`, where it is past its first look at the table,
-- still puts its session there, as open as it was, and a second `Close` changes nothing any more.
pub close_table_misses_late :
    (key s : ℕ) (p : Proxy)
    → p.closed ≡ false
    → let q = close_table p in
      let (r, chosen) = insert_session key s q in
      ((k : ℕ) → find_session k q ≡ none)
      × (chosen ≡ s)
      × (find_session key r ≡ some s)
      × (r.session s ≡ p.session s)
      × (close_table r ≡ r)
unfolding close_table insert_session insert_found
close_table_misses_late key s p e = rw e (λ k. refl, refl, ground arith, refl, refl)
