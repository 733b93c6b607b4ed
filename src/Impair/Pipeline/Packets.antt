-- ===== src/Impair/Pipeline/Packets.antt =====
-- The queue of a pipeline: its order, and what it holds.
use quixiot.Prelude.{
  ℕ, ◌+◌, ◌*◌, ◌^◌, ◌≡◌, List, length, total, Bytes, Option, none, some, ltb, Bool, arith, ap, ◌∙◌,
  true, false, refl,
}
use quixiot.Impair.Heap.{heap_push}
use quixiot.Impair.Heap.Order.{IsHeap}
use quixiot.Impair.Heap.Up.{heap_push_lem}
use quixiot.Impair.Pipeline.{
  ScheduledPacket, HeldPacket, HookCall, Pipeline, uint64, less, call, schedule, timed_packet,
}

-- Release times in order, and sequence numbers where these are equal, as one number.
abbrev pub key : ScheduledPacket → ℕ
key x = x.release_at * 2 ^ 64 + uint64 x.seq

pub less-key : (a b : ScheduledPacket) → less a b ≡ ltb (key a) (key b)
unfolding less
less-key a b = ground arith

abbrev pub IsOrdered : List ScheduledPacket → Type 0
IsOrdered q = IsHeap key q (length q)

-- The weight of the packets that a pipeline holds, from a weight on their bytes.
abbrev pub held_weight : (Bytes → ℕ) → Option HeldPacket → ℕ
held_weight w none = 0
held_weight w (some h) = w h.content

abbrev pub queue_weight : (Bytes → ℕ) → List ScheduledPacket → ℕ
queue_weight w = total (λ x. w x.content)

abbrev pub pending : (Bytes → ℕ) → Pipeline → ℕ
pending w p = held_weight w p.held + queue_weight w p.queue

-- A hook's call changes the record of calls alone.
pub call_lem :
    (isset : Bool) (c : HookCall) (p : Pipeline)
    → call isset c p ≡ record p { calls = (call isset c p).calls }
unfolding call
call_lem true c p = refl
call_lem false c p = refl

-- `schedule` puts one packet into the queue, keeps its order, and leaves the packet held.
pub schedule_lem :
    (now : ℕ) (content : Bytes) (p : Pipeline)
    → ((schedule now content p).queue ≡ heap_push less (timed_packet now content p).0 p.queue)
      × ((schedule now content p).held ≡ p.held)
      × ((schedule now content p).cfg ≡ p.cfg)
      × ((schedule now content p).hooks ≡ p.hooks)
      × ((schedule now content p).next_seq ≡ uint64 (p.next_seq + 1))
unfolding schedule call
schedule_lem now content p = ground arith

timed_packet-content :
    (now : ℕ) (content : Bytes) (p : Pipeline) → (timed_packet now content p).0.content ≡ content
unfolding timed_packet
timed_packet-content now content p = refl

pub schedule-queue_weight :
    (now : ℕ) (content : Bytes) (p : Pipeline) (w : Bytes → ℕ)
    → IsOrdered p.queue
    → IsOrdered (schedule now content p).queue
      × (queue_weight w (schedule now content p).queue ≡ w content + queue_weight w p.queue)
schedule-queue_weight now content p w h =
    let x = (timed_packet now content p).0 in
    let (ordered, _, tot) = heap_push_lem less key less-key x p.queue (λ y. w y.content) h in
    let e = (schedule_lem now content p).0 in
    (
      rw e ordered,
      ap (queue_weight w) e
          ∙ (tot ∙ ap (λ c. w c + queue_weight w p.queue) (timed_packet-content now content p)),
    )
