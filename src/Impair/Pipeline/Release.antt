-- ===== src/Impair/Pipeline/Release.antt =====
-- What `ReleaseReady` hands out: the packets that are due, in order, and no other.
use quixiot.Prelude.{
  ℕ, zero, suc, ◌+◌, ◌≡◌, ◌≤◌, ◌<◌, ◌⊎◌, List, [], ◌∷◌, map, length, total, Bytes, Option, none,
  some, ltb, leb, leb→le, le→leb, All, All-map, All-of-contents, arith, subst, sym, if◌then◌else◌,
  Bool-cases, Option-cases, inl, inr, refl,
}
use native.Mathlib.Nat.{le_refl}
use quixiot.Impair.Heap.Order.{root-le, All-of-key_at}
use quixiot.Impair.Heap.Laws.{Pops, heap_pop_lem}
use quixiot.Impair.Pipeline.{
  ScheduledPacket, HeldPacket, Pipeline, less, flush_expired_held, drain, release_ready,
}
use quixiot.Impair.Pipeline.Packets.{key, less-key, IsOrdered, pending, queue_weight, schedule_lem}
use quixiot.Impair.Pipeline.Accounting.{flush_expired_held-TakesIn}

-- Each packet stands before those that are later, or of the same time and pushed later.
abbrev pub Ascending : List ScheduledPacket → Type 0
Ascending [] = Unit
Ascending (x ∷ xs) = All (λ y. key x ≤ key y) xs × Ascending xs

pub record Drains (now : ℕ) (q out rest : List ScheduledPacket) : Type 0 where
  pub ordered : IsOrdered rest
  pub ascending : Ascending out
  pub due : All (λ x. x.release_at ≤ now) out
  pub not_due : All (λ x. now < x.release_at) rest
  pub contents : (w : ScheduledPacket → ℕ) → total w out + total w rest ≡ total w q

-- A later key has no earlier time.
later : (now : ℕ) (x y : ScheduledPacket) → now < x.release_at → key x ≤ key y → now < y.release_at
later now x y h k = omega arith

pub root-least :
    (x : ScheduledPacket) (xs : List ScheduledPacket)
    → IsOrdered (x ∷ xs)
    → All (λ y. key x ≤ key y) (x ∷ xs)
root-least x xs h =
    All-of-key_at key (x ∷ xs) (key x) (λ k l. root-le key (x ∷ xs) (length (x ∷ xs)) k l h)

Drains-none :
    (now : ℕ) (x : ScheduledPacket) (xs : List ScheduledPacket)
    → IsOrdered (x ∷ xs)
    → now < x.release_at
    → Drains now (x ∷ xs) [] (x ∷ xs)
Drains-none now x xs h early = record {
  ordered = h;
  ascending = tt;
  due = tt;
  not_due = All-map (λ y. later now x y early) (x ∷ xs) (root-least x xs h);
  contents = λ w. omega arith;
}

Drains-cons :
    (now : ℕ) (x : ScheduledPacket) (xs rest out last : List ScheduledPacket)
    → Pops key x xs rest
    → x.release_at ≤ now
    → Drains now rest out last
    → Drains now (x ∷ xs) (x ∷ out) last
Drains-cons now x xs rest out last p over d = record {
  ordered = d.ordered;
  ascending = (
    All-map (λ y. leb→le (key x) (key y)) out
        (All-of-contents (λ y. leb (key x) (key y)) rest out
          (omega (arith, d.contents (λ y. if leb (key x) (key y) then 0 else 1)))
          (All-map (λ y. le→leb (key x) (key y)) rest p.least)),
    d.ascending,
  );
  due = (over, d.due);
  not_due = d.not_due;
  contents = λ w. omega (arith, d.contents w, p.contents w);
}

drain-Drains :
    (fuel now : ℕ) (q : List ScheduledPacket)
    → length q ≤ fuel
    → IsOrdered q
    → Drains now q (drain fuel now q).0 (drain fuel now q).1
unfolding drain
drain-Drains zero now [] f h = record {
  ordered = h;
  ascending = tt;
  due = tt;
  not_due = tt;
  contents = λ w. refl;
}
drain-Drains zero now (x ∷ xs) f h = absurd (omega arith)
drain-Drains (suc fuel) now [] f h = record {
  ordered = h;
  ascending = tt;
  due = tt;
  not_due = tt;
  contents = λ w. refl;
}
drain-Drains (suc fuel) now (x ∷ xs) f h = elim (Bool-cases (ltb now x.release_at)) [
  | inl early ↦ rw (early, drain) (Drains-none now x xs h (ground arith))
  | inr over ↦
      let (rest, popped, p) = heap_pop_lem less key less-key x xs h in
      let d = drain-Drains fuel now rest (omega (arith, p.shorter)) p.ordered in
      rw (over, popped, drain) (Drains-cons now x xs rest _ _ p (ground arith) d)
]

-- Behind `flushExpiredHeld` the packet held, if any, is not yet due, unless it was so already.
abbrev pub IsHeldAfter : ℕ → Option HeldPacket → Type 0
IsHeldAfter now none = Unit
IsHeldAfter now (some h) = now < h.release_at

flush_expired_held-held :
    (now : ℕ) (p : Pipeline)
    → ((flush_expired_held now p).held ≡ none)
      ⊎ ((h : HeldPacket) × ((flush_expired_held now p).held ≡ some h) × (now < h.release_at))
unfolding flush_expired_held
flush_expired_held-held now p = elim (Option-cases p.held) [
  | inl e ↦ inl (ground (arith, e))
  | inr (h, e) ↦ elim (Bool-cases (ltb now h.release_at)) [
    | inl early ↦ inr (h, ground (arith, e, early), ground arith)
    | inr over ↦ inl (
        ground (arith, e, over, (schedule_lem h.release_at h.content (record p { held = none })).1))
  ]
]

flush_expired_held-IsHeldAfter :
    (now : ℕ) (p : Pipeline) → IsHeldAfter now (flush_expired_held now p).held
flush_expired_held-IsHeldAfter now p = elim (flush_expired_held-held now p) [
  | inl e ↦ subst (IsHeldAfter now) (sym e) tt
  | inr (h, e, early) ↦ subst (IsHeldAfter now) (sym e) early
]

-- What one call of `ReleaseReady` at `now` does: `data_out` are the contents of the packets `out`, which
-- stood with these release times and sequence numbers in the queue that `flushExpiredHeld` left; counted
-- by any weight of packets, they and the new queue make up that queue.
pub record Releases (now : ℕ) (p : Pipeline) (data_out : List Bytes) (q : Pipeline) : Type 0 where
  pub out : List ScheduledPacket
  pub contents : data_out ≡ map (λ (x : ScheduledPacket). x.content) out
  pub from_queue :
      (w : ScheduledPacket → ℕ)
      → total w out + total w q.queue ≡ total w (flush_expired_held now p).queue
  pub ascending : Ascending out
  pub due : All (λ x. x.release_at ≤ now) out
  pub not_due : All (λ x. now < x.release_at) q.queue
  pub held_not_due : IsHeldAfter now q.held
  pub ordered : IsOrdered q.queue
  pub conserved : (w : Bytes → ℕ) → queue_weight w out + pending w q ≡ pending w p

-- On a queue in heap order `ReleaseReady` returns packets of the queue, as it is behind
-- `flushExpiredHeld`, that are due, ascending by release time and then by sequence number; it leaves none that is due, neither in the queue, which stays in heap
-- order, nor held; and what it returns and what it leaves is what was pending, packet by packet.
pub release_ready-Releases :
    (now : ℕ) (p : Pipeline)
    → IsOrdered p.queue
    → Releases now p (release_ready now p).0 (release_ready now p).1
unfolding release_ready
release_ready-Releases now p h =
    let f = flush_expired_held now p in
    let t = flush_expired_held-TakesIn (λ _. 0) now p in
    let d = drain-Drains (length f.queue) now f.queue (le_refl _) (t.ordered h) in
    record {
      out = (drain (length f.queue) now f.queue).0;
      contents = refl;
      from_queue = d.contents;
      ascending = d.ascending;
      due = d.due;
      not_due = d.not_due;
      held_not_due = flush_expired_held-IsHeldAfter now p;
      ordered = d.ordered;
      conserved = λ w.
          omega
            (arith, d.contents (λ x. w x.content), (flush_expired_held-TakesIn w now p).weighs h);
    }
