-- ===== src/Proxy/Serving/Tests.antt =====
-- A round of `Serve` that loses the race for its client's session to another goroutine.
use quixiot.Prelude.{ℕ, ◌≡◌, refl, true, false, [], ◌∷◌, none, ok, arith}
use quixiot.Impair.Config.{passthrough_profile, validate, validate_direction}
use quixiot.Impair.Pipeline.{new_pipeline_with_hooks}
use quixiot.Proxy.{Proxy, default_idle_ttl, make_session, insert_session, close_session, unused}
use quixiot.Proxy.Sessions.{IsSound, open_below}
use quixiot.Proxy.Serving.{System, packet, get_or_create_session, serve_round}
use quixiot.Proxy.Serving.Rounds.{IsReady, Serves, Delivered, serve_round-Delivered}

abbrev network : System
network = record {
  dialled = true;
  buffer_set = true;
  key_text = λ key. key ∷ [];
  source = λ seed draws. draws;
}

abbrev empty_proxy : Proxy
empty_proxy = record {
  idle_timeout = default_idle_ttl;
  profile = passthrough_profile;
  metrics = true;
  sessions = λ _. none;
  session = λ _. unused;
  next = 0;
  closed = false;
  incs = 0;
  decs = 0;
}

-- Another goroutine makes and inserts a session for client 7 first.
abbrev other_first : Proxy → Proxy
other_first p = (insert_session 7 p.next (make_session 7 12 p)).0

empty_proxy-IsSound : IsSound empty_proxy
unfolding open_below
empty_proxy-IsSound = record { listed = λ k s e. ground (arith, e); gauge = λ _. refl }

passthrough_valid : validate passthrough_profile ≡ ok tt
unfolding validate
passthrough_valid = refl

other_first-IsReady : IsReady 7 0 (other_first (make_session 7 10 empty_proxy))
unfolding make_session insert_session open_below
other_first-IsReady = record {
  sound = record { listed = λ k s e. ground (arith, e); gauge = λ _. refl };
  own = refl;
  runs = refl;
  unlisted = λ k e. ground (arith, e);
}

serve_round-Delivered_example :
    (q : Proxy) × (s : ℕ) × (get_or_create_session network other_first 7 10 empty_proxy ≡ (q, ok s))
    × Serves 7 s q
    × (let (after, v) =
          serve_round network other_first
            (close_session 1)
            false
            false
            10
            (packet 7 (1 ∷ []))
            empty_proxy in
        Delivered s (1 ∷ []) (close_session 1 q) after v)
serve_round-Delivered_example =
    serve_round-Delivered network other_first (close_session 1) false false 7 10 (1 ∷ [])
      empty_proxy refl refl passthrough_valid empty_proxy-IsSound other_first-IsReady

race_lost : (get_or_create_session network other_first 7 10 empty_proxy).1 ≡ ok 1
unfolding get_or_create_session make_session insert_session new_pipeline_with_hooks
    validate_direction
race_lost = refl
