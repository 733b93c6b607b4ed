-- ===== src/Proxy/Tests.antt =====
-- The proxy at concrete inputs.
use mathlib.Core.List.{Memᴰ}
use quixiot.Prelude.{
  zero, suc, ◌<◌, ◌==◌, Bool, Option, [], ◌∷◌, inl, inr, ◌⊎◌, ℕ, ◌≡◌, refl, true, false, none, some,
  ok, arith,
}
use quixiot.Prelude.Int.{pos}
use quixiot.Impair.Config.{passthrough_profile, normalize_profile, validate}
use quixiot.Proxy.{
  Proxy, Options, default_idle_ttl, new_proxy, find_session, make_session, insert_session,
  close_table, unused, close_session,
}
use quixiot.Proxy.Closing.{close}
use quixiot.Proxy.Closing.Closed.{Ended, close-Ended}
use quixiot.Proxy.Sessions.{IsSound, Step, Reach, table_stays-IsSound}
use quixiot.Proxy.Shutdown.{close_table_misses_late}

abbrev options : Options
options = record {
  listen_conn = true;
  upstream_addr = true;
  idle_timeout = pos 0;
  profile = passthrough_profile;
  metrics = true;
  buffer_set = true;
}

abbrev fresh : Proxy
fresh = record {
  idle_timeout = default_idle_ttl;
  profile = passthrough_profile;
  metrics = true;
  sessions = λ _. none;
  session = λ _. unused;
  next = 0;
  closed = false;
  incs = 0;
  decs = 0;
}

fresh-new : new_proxy options ≡ ok fresh
unfolding new_proxy normalize_profile validate
fresh-new = refl

-- Two goroutines make a session for client 7 each; the first is inserted.
abbrev two_made : Proxy
two_made = (insert_session 7 0 (make_session 7 20 (make_session 7 10 fresh))).0

two_made-Reach : Reach fresh two_made
unfolding make_session
two_made-Reach =
    Reach.next (Reach.next (Reach.next Reach.here (Step.makes 7 10 refl)) (Step.makes 7 20 refl))
      (Step.inserts 0 (omega arith) refl (λ k h. ground (arith, h)) refl)

table_stays-IsSound_example : IsSound two_made
table_stays-IsSound_example = table_stays-IsSound options fresh fresh-new two_made-Reach

lost_race : (insert_session 7 1 two_made).1 ≡ 0
unfolding insert_session make_session
lost_race = refl

two_made-open : two_made.closed ≡ false
unfolding insert_session make_session
two_made-open = refl

close_table_misses_late_example :
    let q = close_table two_made in
    let (r, chosen) = insert_session 9 1 q in
    ((k : ℕ) → find_session k q ≡ none)
    × (chosen ≡ 1)
    × (find_session 9 r ≡ some 1)
    × (r.session 1 ≡ two_made.session 1)
    × (close_table r ≡ r)
close_table_misses_late_example = close_table_misses_late 9 1 two_made two_made-open

-- The session that lost the race is closed, and the other is listed.
abbrev race_lost : Proxy
race_lost = (insert_session 7 1 two_made).0

race_lost-Reach : Reach fresh race_lost
unfolding make_session insert_session
race_lost-Reach =
    Reach.next two_made-Reach (Step.inserts 1 (omega arith) refl (λ k h. ground (arith, h)) refl)

race_lost-open : race_lost.closed ≡ false
unfolding insert_session make_session close_session
race_lost-open = refl

race_lost-keys : (key s : ℕ) → race_lost.sessions key ≡ some s → Memᴰ key (7 ∷ [])
unfolding insert_session make_session close_session
race_lost-keys key s e = Memᴰ.head (ground (arith, e))

race_lost-listed :
    (s : ℕ)
    → s < race_lost.next
    → ((race_lost.session s).done ≡ true) ⊎ (race_lost.sessions (race_lost.session s).key ≡ some s)
unfolding insert_session make_session close_session
race_lost-listed zero lt = inr refl
race_lost-listed (suc zero) lt = inl refl
race_lost-listed (suc (suc s)) lt = let no : ⊥ = omega (arith, lt) in elim no [ ]

-- An error is a number, and 0 is that of a closed socket. The upstream socket fails.
abbrev is_net_closed : ℕ → Bool
is_net_closed e = e == 0

abbrev failing : ℕ → Option ℕ
failing s = some 5

close-Ended_example :
    let (q, e) = close is_net_closed failing (some 0) (7 ∷ []) race_lost in
    Ended is_net_closed failing (some 0) race_lost q e
close-Ended_example =
    close-Ended is_net_closed failing (some 0) (7 ∷ []) race_lost
      (table_stays-IsSound options fresh fresh-new race_lost-Reach) race_lost-open race_lost-keys
      race_lost-listed

close_fails : (close is_net_closed failing (some 0) (7 ∷ []) race_lost).1 ≡ some 5
unfolding close insert_session make_session close_session close_table
close_fails = refl
