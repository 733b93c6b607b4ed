-- ===== src/Impair/Pipeline/Tests.antt =====
-- Runs of a pipeline, and the theorems on it.
use quixiot.Prelude.{
  ℕ, ◌+◌, ◌*◌, ◌≤◌, ◌≡◌, ◌⊎◌, true, [], ◌∷◌, none, some, length, total, arith, refl,
}
use quixiot.Prelude.Int.{pos}
use quixiot.Impair.Config.{DirectionConfig, scaled, zero_direction, one}
use quixiot.Impair.Rate.{second}
use quixiot.Impair.Heap.{heap_push, heap_pop, swap, up, down, less_at, smaller_child}
use quixiot.Impair.Pipeline.{
  roll, enqueue_kept, enqueue_copy, copy_free, call, drain, less, flush_expired_held, Hooks,
  ScheduledPacket, Pipeline, enqueue, release_ready, next_wake, schedule, timed_packet,
}
use quixiot.Impair.Pipeline.Packets.{IsOrdered, pending}
use quixiot.Impair.Pipeline.Accounting.{drops, duplicates, enqueue_accounts}
use quixiot.Impair.Pipeline.Release.{Releases, release_ready-Releases}
use quixiot.Impair.Pipeline.Wake.{IsTimed, IsWake, next_wake-IsWake}
use quixiot.Impair.Pipeline.Delay.{schedule_paced}

abbrev slow : DirectionConfig
slow = record zero_direction {
  duplicate_probability = scaled one;
  latency = pos 100;
  jitter = pos 10;
}

abbrev limited : DirectionConfig
limited = record zero_direction { latency = pos 100; bandwidth_bytes_per_sec = pos 1000000000 }

abbrev all_hooks : Hooks
all_hooks = record { on_drop = true; on_duplicate = true; on_reorder = true; on_delay = true }

abbrev start : DirectionConfig → Pipeline
start c = record {
  cfg = c;
  rng = record { tape = λ i. 7 * i + 3; drawn = 0 };
  hooks = all_hooks;
  calls = [];
  queue = [];
  held = none;
  next_seq = 0;
  bandwidth_ready = 0;
}

abbrev two_queued : Pipeline
two_queued = record (start slow) {
  queue =
      (record { content = 1 ∷ []; release_at = 20; seq = 1 })
      ∷ (record { content = 2 ∷ []; release_at = 30; seq = 0 })
      ∷ [];
  held = some (record { content = 3 ∷ []; release_at = 25 });
  next_seq = 2;
}

two_queued-IsOrdered : IsOrdered two_queued.queue
two_queued-IsOrdered k pk lk = let e : k ≡ 1 = omega arith in rw e (omega arith)

two_queued-IsTimed : IsTimed two_queued
two_queued-IsTimed = record {
  queue_after_zero = (omega arith, (omega arith, tt));
  held_after_zero = omega arith;
}

-- Two copies, at 1000 + 100 + 3 and 1000 + 100 + 10 % 11.
enqueue_run : (release_ready 1108 (enqueue 1000 (5 ∷ []) (start slow))).0 ≡ (5 ∷ []) ∷ []
unfolding release_ready enqueue flush_expired_held roll enqueue_kept enqueue_copy copy_free schedule
    timed_packet call drain less heap_push heap_pop swap up down less_at smaller_child
enqueue_run = refl

enqueue_accounts_example :
    let q = enqueue 1000 (5 ∷ 6 ∷ []) two_queued in
    IsOrdered q.queue
    × (((drops q.calls ≡ 1) × (duplicates q.calls ≡ 0) × (pending length q ≡ 3))
        ⊎ ((drops q.calls ≡ 0) × (duplicates q.calls ≡ 0) × (pending length q ≡ 5))
        ⊎ ((drops q.calls ≡ 0) × (duplicates q.calls ≡ 1) × (pending length q ≡ 7)))
enqueue_accounts_example =
    enqueue_accounts length 1000 (5 ∷ 6 ∷ []) two_queued refl refl two_queued-IsOrdered

release_ready-Releases_example :
    Releases 27 two_queued (release_ready 27 two_queued).0 (release_ready 27 two_queued).1
release_ready-Releases_example = release_ready-Releases 27 two_queued two_queued-IsOrdered

next_wake-IsWake_example : IsWake two_queued.held two_queued.queue (next_wake two_queued)
next_wake-IsWake_example = next_wake-IsWake two_queued two_queued-IsOrdered two_queued-IsTimed

next_wake_run : next_wake two_queued ≡ some 20
unfolding next_wake
next_wake_run = refl

start-IsOrdered : IsOrdered (start limited).queue
start-IsOrdered k pk lk = absurd (omega arith)

schedule_paced_example :
    let q = schedule 1000 (5 ∷ 6 ∷ []) (start limited) in
    (x : ScheduledPacket) × (d : ℕ) × (x.content ≡ 5 ∷ 6 ∷ [])
    × ((w : ScheduledPacket → ℕ) → total w q.queue ≡ w x + total w [])
    × (2 * second ≤ d * 1000000000)
    × (0 + d ≤ x.release_at)
    × (1100 + d ≤ x.release_at)
    × (q.bandwidth_ready ≡ x.release_at)
schedule_paced_example =
    schedule_paced 1000 (5 ∷ 6 ∷ []) (start limited) 1000000000 refl (omega arith) (omega arith)
      (omega arith) start-IsOrdered
