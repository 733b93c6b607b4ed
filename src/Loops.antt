-- ===== src/Loops.antt =====
-- internal/proxy/proxy.go: `applyLoop`, which both directions of a session run over their pipelines, with
-- `flushReady` and `resetTimer`. The environment gives each round's clock readings, the case of its select,
-- and which writes fail.
pub mod Accounts
pub mod Passthrough
mod Tests
use quixiot.Prelude.{
  ℕ, suc, ◌-◌, Bool, true, false, List, [], ◌∷◌, ◌++◌, Bytes, Option, none, some, length,
  if◌then◌else◌,
}
use quixiot.Impair.Pipeline.{Pipeline, Hooks, enqueue, flush, next_wake, release_ready}

-- `pipelineHooks`: with metrics, all hooks are set.
abbrev pub pipeline_hooks : Bool → Hooks
pipeline_hooks metrics = record {
  on_drop = metrics;
  on_duplicate = metrics;
  on_reorder = metrics;
  on_delay = metrics;
}

-- `running` until the loop returns; `failed` if a write failed, for which the session was removed. `wake`
-- is the delay that the timer was last set to, if it is.
pub record LoopState : Type 0 where
  pub pipeline : Pipeline
  pub wake : Option ℕ
  pub written : List Bytes
  pub running : Bool
  pub failed : Bool

-- The case that the select of a round takes, with the clock at that time. `done` has the clock once
-- more, for its flush.
pub data LoopEvent : Type 0 where
  session_done : ℕ → ℕ → LoopEvent
  input : ℕ → Bytes → LoopEvent
  timer_fires : LoopEvent

-- A round: the clock at its flush and where it sets the timer, and the event it then waits for.
pub record Round : Type 0 where
  pub flush_at : ℕ
  pub reset_at : ℕ
  pub event : LoopEvent

-- The writes of `flushReady`, up to one that fails: the packets written so far, and if none failed.
pub write_all : (ℕ → Bool) → List Bytes → List Bytes → List Bytes × Bool
write_all fails [] written = (written, true)
write_all fails (x ∷ rest) written =
    let more = write_all fails rest (written ++ x ∷ []) in
    if fails (length written) then (written, false) else more

-- `flushReady`
pub flush_ready : (ℕ → Bool) → ℕ → LoopState → LoopState
unfolding write_all
flush_ready fails now s =
    let (ready, p) = release_ready now s.pipeline in
    let (written, good) = write_all fails ready s.written in
    if good
    then record s { pipeline = p; written = written }
    else record s { pipeline = p; written = written; running = false; failed = true }

-- `resetTimer`: the delay to the wake time, which is 0 where that has passed.
pub reset_timer : ℕ → LoopState → LoopState
reset_timer now s = record s {
  wake = elim (next_wake s.pipeline) [ none ↦ none | some t ↦ some (t - now) ];
}

pub handle_event : (ℕ → Bool) → LoopEvent → LoopState → LoopState
unfolding flush_ready
handle_event fails (session_done now after) s =
    let t = flush_ready fails after (record s { pipeline = flush now s.pipeline }) in
    record t { running = false }
handle_event fails (input now packet) s = record s { pipeline = enqueue now packet s.pipeline }
handle_event fails timer_fires s = s

pub apply_round : (ℕ → Bool) → Round → LoopState → LoopState
unfolding reset_timer handle_event flush_ready
apply_round fails r s =
    let t = flush_ready fails r.flush_at s in
    if t.running then handle_event fails r.event (reset_timer r.reset_at t) else t

-- `applyLoop`, for the rounds that it comes to.
pub apply_loop : (ℕ → Bool) → List Round → LoopState → LoopState
unfolding apply_round
apply_loop fails [] s = s
apply_loop fails (r ∷ rest) s =
    if s.running then apply_loop fails rest (apply_round fails r s) else s

abbrev pub start_loop : Pipeline → LoopState
start_loop p = record { pipeline = p; wake = none; written = []; running = true; failed = false }
