-- ===== src/Impair/Pipeline.antt =====
-- internal/impair/pipeline.go: the pipeline of one direction. Times are nanoseconds since the zero
-- `time.Time`, durations int64 nanoseconds; a time stays in the range of `time.Time`.
pub mod Packets
pub mod Accounting
pub mod Calls
pub mod Release
pub mod Wake
pub mod Delay
pub mod Clear
mod Tests
use quixiot.Prelude.{
  ℕ, zero, suc, ◌+◌, ◌-◌, ◌*◌, ◌/◌, ◌%◌, ◌^◌, ◌≤◌, ◌<◌, Bool, true, false, not, ◌&&◌, ◌||◌, List,
  [], ◌∷◌, ◌++◌, map, Bytes, Option, none, some, length, ltb, leb, ◌==◌, if◌then◌else◌, Result, ok,
  err, ◌>>=◌, ◌>>◌,
}
use quixiot.Prelude.Int.{ℤ, pos, pos_part, neg_part, sub_ℕ, ltb_ℤ, leb_ℤ}
use quixiot.Impair.Config.{
  Probability, nan, scaled, one, DirectionConfig, ConfigError, in_direction, validate_direction,
}
use quixiot.Impair.Heap.{heap_push, heap_pop}
use quixiot.Impair.Rate.{transmit_duration}

-- `defaultReorderHold`
abbrev pub default_reorder_hold : ℤ
default_reorder_hold = pos 3000000

-- A `rand.Rand`: what it will draw, and how much of it has been drawn. `Float64` gives a multiple
-- of 2^-53 below 1, and `Int63n(n)` a number below n; each draw takes one number of the tape.
pub record Rng : Type 0 where
  pub tape : ℕ → ℕ
  pub drawn : ℕ

pub record HeldPacket : Type 0 where
  pub content : Bytes
  pub release_at : ℕ

pub record ScheduledPacket : Type 0 where
  pub content : Bytes
  pub release_at : ℕ
  pub seq : ℕ

-- A call of a hook that is set.
pub data HookCall : Type 0 where
  dropped duplicated reordered : HookCall
  delayed : ℤ → HookCall

-- Which hooks are set.
pub record Hooks : Type 0 where
  pub on_drop : Bool
  pub on_duplicate : Bool
  pub on_reorder : Bool
  pub on_delay : Bool

-- `calls` are the hook calls made so far, the latest first.
pub record Pipeline : Type 0 where
  pub cfg : DirectionConfig
  pub rng : Rng
  pub hooks : Hooks
  pub calls : List HookCall
  pub queue : List ScheduledPacket
  pub held : Option HeldPacket
  pub next_seq : ℕ
  pub bandwidth_ready : ℕ

-- A uint64 field, read modulo 2^64.
abbrev pub uint64 : ℕ → ℕ
uint64 n = n % 2 ^ 64

-- `packetHeap.Less`
pub less : ScheduledPacket → ScheduledPacket → Bool
less a b =
    if a.release_at == b.release_at
    then ltb (uint64 a.seq) (uint64 b.seq)
    else ltb a.release_at b.release_at

unfoldable pub new_pipeline_with_hooks :
    (ℤ → ℕ → ℕ) → DirectionConfig → ℤ → Hooks → Result ConfigError Pipeline
new_pipeline_with_hooks source cfg seed hooks = do
  validate_direction in_direction cfg
  ok (record {
    cfg = cfg;
    rng = record { tape = source seed; drawn = 0 };
    hooks = hooks;
    calls = [];
    queue = [];
    held = none;
    next_seq = 0;
    bandwidth_ready = 0;
  })

-- `if hook != nil { hook() }`
pub call : Bool → HookCall → Pipeline → Pipeline
call isset c p = if isset then record p { calls = c ∷ p.calls } else p

draw : Rng → ℕ × Rng
draw r = (r.tape r.drawn, record r { drawn = r.drawn + 1 })

-- No case of the switch but the last takes NaN, which is then less than no draw.
pub roll : Probability → Rng → Bool × Rng
unfolding draw
roll nan r = (false, (draw r).1)
roll (scaled prob) r =
    if leb_ℤ prob (pos 0)
    then (false, r)
    else if leb_ℤ one prob
    then (true, r)
    else (ltb_ℤ (pos ((draw r).0 % 2 ^ 53)) prob, (draw r).1)

-- `t.Add(d)`
abbrev pub after : ℕ → ℤ → ℕ
after t d = t + pos_part d - neg_part d

-- `t.Sub(u)`
abbrev pub since : ℕ → ℕ → ℤ
since t u = sub_ℕ t u

positive : ℤ → Bool
positive d = ltb_ℤ (pos 0) d

with_latency : DirectionConfig → ℕ → ℕ
with_latency c t = if positive c.latency then after t c.latency else t

-- A jitter of 2^63 - 1 nanoseconds, at which `int64(jitter) + 1` overflows, is left out.
with_jitter : DirectionConfig → Rng → ℕ → ℕ × Rng
unfolding draw
with_jitter c rng t =
    if positive c.jitter
    then (after t (pos ((draw rng).0 % (pos_part c.jitter + 1))), (draw rng).1)
    else (t, rng)

with_bandwidth : DirectionConfig → ℕ → ℕ → ℕ → ℕ
with_bandwidth c ready size t =
    if positive c.bandwidth_bytes_per_sec
    then after (if ltb t ready then ready else t) (transmit_duration size c.bandwidth_bytes_per_sec)
    else t

-- The packet that `schedule` pushes, with the generator behind its draw.
pub timed_packet : ℕ → Bytes → Pipeline → ScheduledPacket × Rng
unfolding with_jitter with_latency with_bandwidth positive
timed_packet now content p =
    let jittered = with_jitter p.cfg p.rng (with_latency p.cfg now) in
    let release = with_bandwidth p.cfg p.bandwidth_ready (length content) jittered.0 in
    (record { content = content; release_at = release; seq = p.next_seq }, jittered.1)

pub schedule : ℕ → Bytes → Pipeline → Pipeline
unfolding positive
schedule now content p =
    let timed = timed_packet now content p in
    let packet = timed.0 in
    let ready =
      if positive p.cfg.bandwidth_bytes_per_sec then packet.release_at else p.bandwidth_ready in
    call p.hooks.on_delay (delayed (since packet.release_at now)) (record p {
      rng = timed.1;
      bandwidth_ready = ready;
      queue = heap_push less packet p.queue;
      next_seq = uint64 (p.next_seq + 1);
    })

reorder_hold : DirectionConfig → ℤ
reorder_hold c = if positive c.reorder_hold then c.reorder_hold else default_reorder_hold

-- With no packet held: hold this one, or schedule it.
copy_free : ℕ → Bytes → Pipeline → Pipeline
copy_free now content p =
    let rolled = roll p.cfg.reorder_probability p.rng in
    let q = record p { rng = rolled.1 } in
    let kept : HeldPacket = record {
      content = content;
      release_at = after now (reorder_hold p.cfg);
    } in
    if rolled.0
    then record (call p.hooks.on_reorder reordered q) { held = some kept }
    else schedule now content q

-- With a packet held: schedule this one, and then that.
copy_behind : ℕ → Bytes → HeldPacket → Pipeline → Pipeline
copy_behind now content h p =
    schedule now h.content (record (schedule now content p) { held = none })

pub enqueue_copy : ℕ → Bytes → Pipeline → Pipeline
enqueue_copy now content p = elim p.held [
  | none ↦ copy_free now content p
  | some h ↦ copy_behind now content h p
]

pub flush_expired_held : ℕ → Pipeline → Pipeline
flush_expired_held now p = elim p.held [
  | none ↦ p
  | some h ↦
      if ltb now h.release_at then p else schedule h.release_at h.content (record p { held = none })
]

-- Behind the roll for a drop.
enqueue_kept : ℕ → Bytes → Pipeline → Pipeline
enqueue_kept now content p =
    let rolled = roll p.cfg.duplicate_probability p.rng in
    let q = record p { rng = rolled.1 } in
    if rolled.0
    then enqueue_copy now content
        (enqueue_copy now content (call p.hooks.on_duplicate duplicated q))
    else enqueue_copy now content q

pub enqueue : ℕ → Bytes → Pipeline → Pipeline
enqueue now content p0 =
    let p = flush_expired_held now p0 in
    let rolled = roll p.cfg.drop_probability p.rng in
    let q = record p { rng = rolled.1 } in
    if rolled.0 then call p.hooks.on_drop dropped q else enqueue_kept now content q

pub flush : ℕ → Pipeline → Pipeline
flush now p = elim p.held [ none ↦ p | some h ↦ schedule now h.content (record p { held = none }) ]

held_wake : Option HeldPacket → ℕ
held_wake none = 0
held_wake (some h) = h.release_at

queue_wake : ℕ → List ScheduledPacket → ℕ
queue_wake next [] = next
queue_wake next (x ∷ xs) = if next == 0 || ltb x.release_at next then x.release_at else next

-- The zero time stands for no time.
pub next_wake : Pipeline → Option ℕ
unfolding held_wake queue_wake
next_wake p =
    let next = queue_wake (held_wake p.held) p.queue in if next == 0 then none else some next

-- The loop of `ReleaseReady`: the packets taken off the queue, and the queue that is left.
drain : ℕ → ℕ → List ScheduledPacket → List ScheduledPacket × List ScheduledPacket
drain zero now q = ([], q)
drain (suc fuel) now [] = ([], [])
drain (suc fuel) now (x ∷ xs) =
    let stop : List ScheduledPacket × List ScheduledPacket = ([], x ∷ xs) in
    let pop : List ScheduledPacket × List ScheduledPacket = elim (heap_pop less (x ∷ xs)) [
      | none ↦ ([], x ∷ xs)
      | some (y, rest) ↦ let more = drain fuel now rest in (y ∷ more.0, more.1)
    ] in
    if ltb now x.release_at then stop else pop

pub release_ready : ℕ → Pipeline → List Bytes × Pipeline
release_ready now p0 =
    let p = flush_expired_held now p0 in
    let drained = drain (length p.queue) now p.queue in
    (map (λ (x : ScheduledPacket). x.content) drained.0, record p { queue = drained.1 })
