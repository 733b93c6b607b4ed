-- ===== src/Impair/Pipeline/Clear.antt =====
-- A pipeline with no impairment, as that of the passthrough profile.
use quixiot.Prelude.{
  ℕ, ◌≤◌, ◌≡◌, refl, Bool, true, false, List, [], ◌∷◌, Bytes, none, arith, ok, ltb,
}
use quixiot.Prelude.Int.{ℤ}
use quixiot.Impair.Config.{DirectionConfig, passthrough_profile, validate_direction}
use quixiot.Impair.Heap.{heap_push, heap_pop, up, down, swap}
use quixiot.Impair.Pipeline.{
  Pipeline, Rng, Hooks, HookCall, ScheduledPacket, drain, enqueue, enqueue_kept, enqueue_copy,
  copy_free, schedule, timed_packet, call, roll, flush_expired_held, flush, release_ready,
  new_pipeline_with_hooks,
}

abbrev pub no_impairment : DirectionConfig
no_impairment = passthrough_profile.to_server

-- Nothing is held, and this is the queue.
pub record IsClear (queue : List ScheduledPacket) (p : Pipeline) : Type 0 where
  pub cfg : p.cfg ≡ no_impairment
  pub held : p.held ≡ none
  pub waiting : p.queue ≡ queue

abbrev clear : Rng → Hooks → List HookCall → ℕ → ℕ → List ScheduledPacket → Pipeline
clear rng hooks calls seq ready queue = record {
  cfg = no_impairment;
  rng = rng;
  hooks = hooks;
  calls = calls;
  queue = queue;
  held = none;
  next_seq = seq;
  bandwidth_ready = ready;
}

same_clear :
    (queue : List ScheduledPacket) (p : Pipeline)
    → IsClear queue p
    → p ≡ clear p.rng p.hooks p.calls p.next_seq p.bandwidth_ready queue
same_clear queue p h = ground (arith, h.cfg, h.held, h.waiting)

call_same :
    (isset : Bool) (c : HookCall) (p : Pipeline) (queue : List ScheduledPacket)
    → IsClear queue p
    → IsClear queue (call isset c p)
unfolding call
call_same true c p queue h = record { cfg = h.cfg; held = h.held; waiting = h.waiting }
call_same false c p queue h = h

-- A packet that comes to an empty queue is due at once.
pub enqueue-IsClear :
    (now : ℕ) (content : Bytes) (p : Pipeline)
    → IsClear [] p
    → IsClear
        (record { content = content; release_at = now; seq = p.next_seq } ∷ [])
        (enqueue now content p)
unfolding enqueue enqueue_kept enqueue_copy copy_free schedule timed_packet roll flush_expired_held
    heap_push up
enqueue-IsClear now content p h =
    rw (same_clear [] p h)
      (call_same p.hooks.on_delay _ _ _ (record { cfg = refl; held = refl; waiting = refl }))

pub release_ready-IsClear :
    (now : ℕ) (x : ScheduledPacket) (p : Pipeline)
    → IsClear (x ∷ []) p
    → x.release_at ≤ now
    → ((release_ready now p).0 ≡ x.content ∷ []) × IsClear [] (release_ready now p).1
unfolding release_ready drain flush_expired_held heap_pop down swap
release_ready-IsClear now x p h due =
    let late : ltb now x.release_at ≡ false = ground (arith, due) in
    rw (same_clear (x ∷ []) p h)
      (rw late (refl, record { cfg = refl; held = refl; waiting = refl }))

pub release_ready_idle :
    (now : ℕ) (p : Pipeline)
    → IsClear [] p
    → ((release_ready now p).0 ≡ []) × IsClear [] (release_ready now p).1
unfolding release_ready drain flush_expired_held
release_ready_idle now p h =
    rw (same_clear [] p h) (refl, record { cfg = refl; held = refl; waiting = refl })

pub flush_same :
    (now : ℕ) (queue : List ScheduledPacket) (p : Pipeline)
    → IsClear queue p
    → IsClear queue (flush now p)
unfolding flush
flush_same now queue p h =
    rw (same_clear queue p h) (record { cfg = refl; held = refl; waiting = refl })

pub new_pipeline-IsClear :
    (source : ℤ → ℕ → ℕ) (seed : ℤ) (hooks : Hooks) {p : Pipeline}
    → new_pipeline_with_hooks source no_impairment seed hooks ≡ ok p
    → IsClear [] p
unfolding new_pipeline_with_hooks validate_direction
new_pipeline-IsClear source seed hooks e = record {
  cfg = ground (arith, e);
  held = ground (arith, e);
  waiting = ground (arith, e);
}
