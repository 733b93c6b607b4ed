-- ===== src/Loops/Tests.antt =====
-- A run of a direction's loop, and the theorem on it.
use quixiot.Prelude.{ℕ, ◌≡◌, ◌+◌, ◌*◌, none, ok, Bool, true, false, List, [], ◌∷◌, refl}
use quixiot.Prelude.Int.{ℤ, pos}
use quixiot.Impair.Config.{validate_direction, DirectionConfig, scaled, zero_direction, one}
use quixiot.Impair.Pipeline.{Pipeline, new_pipeline_with_hooks}
use quixiot.Loops.{Round, input, session_done, apply_loop, start_loop, pipeline_hooks}
use quixiot.Loops.Accounts.{TakesUp, inputs, apply_loop_accounts}

abbrev doubling : DirectionConfig
doubling = record zero_direction { duplicate_probability = scaled one; latency = pos 100 }

abbrev coin : ℤ → ℕ → ℕ
coin seed i = 7 * i + 3

-- Two packets, each doubled, of which the session's end finds the second waiting.
abbrev day : List Round
day =
    (record { flush_at = 1; reset_at = 1; event = input 2 (9 ∷ []) })
    ∷ (record { flush_at = 3; reset_at = 3; event = input 4 (8 ∷ []) })
    ∷ (record { flush_at = 102; reset_at = 103; event = session_done 103 103 })
    ∷ []

abbrev never : ℕ → Bool
never _ = false

abbrev new_p : Pipeline
new_p = record {
  cfg = doubling;
  rng = record { tape = coin (pos 1); drawn = 0 };
  hooks = pipeline_hooks true;
  calls = [];
  queue = [];
  held = none;
  next_seq = 0;
  bandwidth_ready = 0;
}

new_p_lem : new_pipeline_with_hooks coin doubling (pos 1) (pipeline_hooks true) ≡ ok new_p
unfolding new_pipeline_with_hooks validate_direction
new_p_lem = refl

apply_loop_accounts_example : TakesUp (inputs day) [] (apply_loop never day (start_loop new_p))
apply_loop_accounts_example = apply_loop_accounts never day coin doubling (pos 1) new_p_lem
