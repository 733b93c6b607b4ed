-- ===== src/Proxy/Relay/Tests.antt =====
-- A packet on its way to the server.
use quixiot.Prelude.{ℕ, ◌≡◌, refl, true, false, [], ◌∷◌, none, some, ok, arith}
use quixiot.Prelude.Int.{ℤ, pos}
use quixiot.Impair.Config.{validate_direction}
use quixiot.Impair.Pipeline.{Pipeline, new_pipeline_with_hooks}
use quixiot.Impair.Pipeline.Clear.{no_impairment}
use quixiot.Loops.{Round, input, timer_fires, start_loop, pipeline_hooks}
use quixiot.Loops.Passthrough.{apply_round_runs}
use quixiot.Proxy.Relay.{
  Relay, start_relay, arrive, accept, pass_on, relay_round, arrives, accepts, passes_on, rounds,
  Reach, here, next,
}
use quixiot.Proxy.Relay.Order.{Relays, relay_keeps_order}

abbrev tape : ℤ → ℕ → ℕ
tape seed i = i

abbrev clear_pipeline : Pipeline
clear_pipeline = record {
  cfg = no_impairment;
  rng = record { tape = tape (pos 1); drawn = 0 };
  hooks = pipeline_hooks true;
  calls = [];
  queue = [];
  held = none;
  next_seq = 0;
  bandwidth_ready = 0;
}

clear_pipeline-new :
    new_pipeline_with_hooks tape no_impairment (pos 1) (pipeline_hooks true) ≡ ok clear_pipeline
unfolding new_pipeline_with_hooks validate_direction
clear_pipeline-new = refl

-- The packet 7 in `incoming`, in hand, and in the channel.
abbrev came_in : Relay
came_in = record {
  to_server = true;
  came = (7 ∷ []) ∷ [];
  incoming = (7 ∷ []) ∷ [];
  hand = none;
  channel = [];
  loop = start_loop clear_pipeline;
  clock = 0;
}

abbrev carried : Relay
carried = record came_in { incoming = []; hand = some (7 ∷ []) }

abbrev handed_on : Relay
handed_on = record came_in { incoming = []; channel = (7 ∷ []) ∷ [] }

abbrev take_round : Round
take_round = record { flush_at = 5; reset_at = 6; event = input 8 (7 ∷ []) }

abbrev write_round : Round
write_round = record { flush_at = 9; reset_at = 9; event = timer_fires }

abbrev taken : Relay
taken = relay_round (λ _. false) take_round handed_on

handed_on-Reach : Reach (start_relay true clear_pipeline) handed_on
unfolding start_relay arrive accept pass_on
handed_on-Reach =
    next {s = carried}
      (next {s = came_in} (next here (arrives (7 ∷ []) refl refl)) (accepts refl refl))
      (passes_on refl)

handed_on-Relays : Relays handed_on
handed_on-Relays =
    relay_keeps_order tape (pos 1) (pipeline_hooks true) true clear_pipeline-new handed_on-Reach

taken-runs : (taken.loop.running ≡ true) × (taken.clock ≡ 8)
unfolding relay_round
taken-runs = (
  apply_round_runs take_round handed_on-Relays.taken 0 handed_on.loop handed_on-Relays.forwards
      (omega arith) refl tt,
  refl,
)

written-Reach : Reach (start_relay true clear_pipeline) (relay_round (λ _. false) write_round taken)
written-Reach =
    next (next handed_on-Reach (rounds take_round refl (omega arith) ([], refl)))
      (rounds write_round taken-runs.0 (omega (arith, taken-runs.1)) tt)

relay_keeps_order_example : Relays (relay_round (λ _. false) write_round taken)
relay_keeps_order_example =
    relay_keeps_order tape (pos 1) (pipeline_hooks true) true clear_pipeline-new written-Reach
