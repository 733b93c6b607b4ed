-- ===== src/Impair/Pipeline/Delay.antt =====
-- When a packet is released: within the configured delay, and no faster than the configured rate.
use native.Mathlib.Nat.{mod-lt}
use quixiot.Prelude.{ℕ, ◌+◌, ◌*◌, ◌^◌, ◌≤◌, ◌<◌, ◌≡◌, arith, refl, ◌∙◌, ap, length, total, Bytes}
use quixiot.Prelude.Int.{pos, pos_part}
use quixiot.Impair.Rate.{second, transmit_duration}
use quixiot.Impair.Rate.Exact.{transmit_duration_exact}
use quixiot.Impair.Config.{DirectionConfig}
use quixiot.Impair.Pipeline.{
  ScheduledPacket, Pipeline, Rng, less, positive, with_latency, with_jitter, with_bandwidth,
  timed_packet, schedule, call,
}
use quixiot.Impair.Heap.Up.{heap_push_lem}
use quixiot.Impair.Pipeline.Packets.{key, less-key, IsOrdered, schedule_lem}

jittered_bounds :
    (c : DirectionConfig) (r : Rng) (t : ℕ)
    → (t ≤ (with_jitter c r t).0) × ((with_jitter c r t).0 ≤ t + pos_part c.jitter)
unfolding with_jitter
jittered_bounds c r t =
    ground (arith, mod-lt (r.tape r.drawn) {m = pos_part c.jitter + 1} (omega arith))

latency_exact : (c : DirectionConfig) (t : ℕ) → with_latency c t ≡ t + pos_part c.latency
unfolding with_latency positive
latency_exact c t = ground arith

unlimited :
    (c : DirectionConfig) (ready size t : ℕ)
    → pos_part c.bandwidth_bytes_per_sec ≡ 0
    → with_bandwidth c ready size t ≡ t
unfolding with_bandwidth positive
unlimited c ready size t h = ground arith

-- With no bandwidth limit, a packet scheduled at `now` is released after the latency and at most the
-- jitter more, where a negative duration counts as none.
pub timed_packet_delay :
    (now : ℕ) (content : Bytes) (p : Pipeline)
    → pos_part p.cfg.bandwidth_bytes_per_sec ≡ 0
    → let t = (timed_packet now content p).0.release_at in
      (now + pos_part p.cfg.latency ≤ t)
      × (t ≤ now + pos_part p.cfg.latency + pos_part p.cfg.jitter)
unfolding timed_packet
timed_packet_delay now content p h =
    let (low, high) = jittered_bounds p.cfg p.rng (with_latency p.cfg now) in
    let e = latency_exact p.cfg now in
    let u =
      unlimited p.cfg p.bandwidth_ready (length content)
        (with_jitter p.cfg p.rng (with_latency p.cfg now)).0 h in
    (omega (arith, low, e, u), omega (arith, high, e, u))

paced :
    (c : DirectionConfig) (ready size t rate d : ℕ)
    → c.bandwidth_bytes_per_sec ≡ pos rate
    → 0 < rate
    → transmit_duration size (pos rate) ≡ pos d
    → (t + d ≤ with_bandwidth c ready size t) × (ready + d ≤ with_bandwidth c ready size t)
unfolding with_bandwidth positive
paced c ready size t rate d e r h =
    let f : transmit_duration size c.bandwidth_bytes_per_sec ≡ pos d =
      ap (transmit_duration size) e ∙ h in
    ground (arith, e, f)

-- With a bandwidth limit, packets leave one behind the other: scheduling puts one packet with the
-- content into the queue, whose packets are otherwise, counted by any weight, those that were there; the
-- new packet is released after the end of the one before by the time that its bytes take at the rate, not
-- before its latency has passed as well, and its release is the end that the next one waits for.
pub schedule_paced :
    (now : ℕ) (content : Bytes) (p : Pipeline) (rate : ℕ)
    → p.cfg.bandwidth_bytes_per_sec ≡ pos rate
    → 0 < rate
    → 0 < length content
    → length content * second + rate < 2 ^ 63
    → IsOrdered p.queue
    → let q = schedule now content p in
      (x : ScheduledPacket) × (d : ℕ) × (x.content ≡ content)
      × ((w : ScheduledPacket → ℕ) → total w q.queue ≡ w x + total w p.queue)
      × (length content * second ≤ d * rate)
      × (p.bandwidth_ready + d ≤ x.release_at)
      × (now + pos_part p.cfg.latency + d ≤ x.release_at)
      × (q.bandwidth_ready ≡ x.release_at)
unfolding timed_packet schedule call
schedule_paced now content p rate e r s h order =
    let (d, exact, _, carries, _) = transmit_duration_exact (length content) rate s r h in
    let t = (with_jitter p.cfg p.rng (with_latency p.cfg now)).0 in
    let (late, behind) = paced p.cfg p.bandwidth_ready (length content) t rate d e r exact in
    let pushed = (schedule_lem now content p).0 in
    (
      (timed_packet now content p).0,
      d,
      refl,
      λ w.
          ap (total w) pushed
          ∙ (heap_push_lem less key less-key (timed_packet now content p).0 p.queue w order).2,
      carries,
      behind,
      omega (
        arith,
        late,
        jittered_bounds p.cfg p.rng (with_latency p.cfg now),
        latency_exact p.cfg now,
      ),
      ground (arith, e, r),
    )
