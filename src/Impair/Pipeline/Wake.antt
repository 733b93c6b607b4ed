-- ===== src/Impair/Pipeline/Wake.antt =====
-- The time that the proxy's timer waits for.
use quixiot.Prelude.{
  ℕ, zero, suc, ◌≡◌, ◌≤◌, ◌<◌, ◌⊎◌, List, [], ◌∷◌, length, Option, none, some, ◌==◌, All, All-map,
  arith, subst, if◌then◌else◌, Option-cases, inl, inr, refl,
}
use quixiot.Impair.Pipeline.{
  ScheduledPacket, HeldPacket, Pipeline, flush_expired_held, drain, release_ready, next_wake,
  queue_wake, held_wake,
}
use quixiot.Impair.Pipeline.Packets.{key, IsOrdered}
use quixiot.Impair.Pipeline.Release.{root-least}

-- The pending packets have times behind the zero `time.Time`, as every time of a clock is.
abbrev pub IsHeldFrom : ℕ → Option HeldPacket → Type 0
IsHeldFrom t none = Unit
IsHeldFrom t (some h) = t ≤ h.release_at

pub record IsTimed (p : Pipeline) : Type 0 where
  pub queue_after_zero : All (λ x. 0 < x.release_at) p.queue
  pub held_after_zero : IsHeldFrom 1 p.held

-- The least time of a queue in heap order is its head's.
no_sooner :
    (x : ScheduledPacket) (xs : List ScheduledPacket)
    → IsOrdered (x ∷ xs)
    → All (λ y. x.release_at ≤ y.release_at) (x ∷ xs)
no_sooner x xs h =
    All-map (λ y (k : key x ≤ key y). let e : x.release_at ≤ y.release_at = omega arith in e)
      (x ∷ xs) (root-least x xs h)

-- One of the pending packets is due at `t`.
abbrev pub IsHeldAt : ℕ → Option HeldPacket → Type 0
IsHeldAt t none = ⊥
IsHeldAt t (some h) = h.release_at ≡ t

abbrev pub IsHeadAt : ℕ → List ScheduledPacket → Type 0
IsHeadAt t [] = ⊥
IsHeadAt t (x ∷ xs) = x.release_at ≡ t

-- The earliest time at which a packet of `held` or of `queue` is due, if there is one.
abbrev pub IsWake : Option HeldPacket → List ScheduledPacket → Option ℕ → Type 0
IsWake held queue none = (held ≡ none) × (queue ≡ [])
IsWake held queue (some t) =
    (IsHeldAt t held ⊎ IsHeadAt t queue) × IsHeldFrom t held × All (λ x. t ≤ x.release_at) queue

wake_of : (held : Option HeldPacket) (queue : List ScheduledPacket) → Option ℕ
unfolding queue_wake held_wake
wake_of held queue =
    let next = queue_wake (held_wake held) queue in if next == 0 then none else some next

All-le_trans :
    (a b : ℕ) (q : List ScheduledPacket)
    → a ≤ b
    → All (λ x. b ≤ x.release_at) q
    → All (λ x. a ≤ x.release_at) q
All-le_trans a b q h =
    All-map (λ y (k : b ≤ y.release_at). let e : a ≤ y.release_at = omega arith in e) q

wake_of-IsWake :
    (held : Option HeldPacket) (queue : List ScheduledPacket)
    → IsOrdered queue
    → All (λ x. 0 < x.release_at) queue
    → IsHeldFrom 1 held
    → IsWake held queue (wake_of held queue)
unfolding wake_of
wake_of-IsWake none [] o q h = (refl, refl)
wake_of-IsWake (some k) [] o q h = ground arith
wake_of-IsWake none (x ∷ xs) o q h = ground (arith, no_sooner x xs o)
wake_of-IsWake (some k) (x ∷ xs) o q h =
    ground (arith, no_sooner x xs o, All-le_trans k.release_at x.release_at (x ∷ xs))

-- `NextWake` returns the earliest time at which a pending packet is due, and none just when nothing
-- is pending: on a queue in heap order, with all times behind the zero time.
pub next_wake-IsWake :
    (p : Pipeline) → IsOrdered p.queue → IsTimed p → IsWake p.held p.queue (next_wake p)
unfolding next_wake wake_of
next_wake-IsWake p o t = wake_of-IsWake p.held p.queue o t.queue_after_zero t.held_after_zero

flush_expired_held_early :
    (p : Pipeline) (t now : ℕ) → IsHeldFrom t p.held → now < t → flush_expired_held now p ≡ p
unfolding flush_expired_held
flush_expired_held_early p t now h early = elim (Option-cases p.held) [
  | inl e ↦ ground (arith, e)
  | inr (k, e) ↦ let from : t ≤ k.release_at = subst (IsHeldFrom t) e h in ground (arith, e, from)
]

drain_early :
    (fuel t now : ℕ) (q : List ScheduledPacket)
    → All (λ x. t ≤ x.release_at) q
    → now < t
    → drain fuel now q ≡ ([], q)
unfolding drain
drain_early zero t now q h early = refl
drain_early (suc fuel) t now [] h early = refl
drain_early (suc fuel) t now (x ∷ xs) h early = ground arith

-- Before that time `ReleaseReady` returns nothing and changes nothing, so a timer set for it misses
-- no packet.
pub release_ready-before_wake :
    (p : Pipeline) (t now : ℕ)
    → IsOrdered p.queue
    → IsTimed p
    → next_wake p ≡ some t
    → now < t
    → release_ready now p ≡ ([], p)
unfolding release_ready
release_ready-before_wake p t now o timed e early =
    let (_, held, all) = subst (IsWake p.held p.queue) e (next_wake-IsWake p o timed) in
    rw (flush_expired_held_early p t now held early)
      (rw (drain_early (length p.queue) t now p.queue all early))
