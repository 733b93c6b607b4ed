-- ===== src/Loops/Passthrough.antt =====
-- A round of a direction's loop, over a pipeline with no impairment.
use quixiot.Prelude.{
  ℕ, ◌≤◌, ◌≡◌, refl, ap, sym, ◌∙◌, ◌⊎◌, inl, inr, Bool, true, false, List, [], ◌∷◌, ◌++◌, Bytes,
  map, arith, if_elim, append-nil, subst,
}
use quixiot.Impair.Pipeline.{ScheduledPacket, flush}
use quixiot.Impair.Pipeline.Clear.{
  IsClear, enqueue-IsClear, release_ready-IsClear, release_ready_idle, flush_same,
}
use quixiot.Loops.{
  LoopState, LoopEvent, session_done, input, timer_fires, Round, write_all, flush_ready,
  reset_timer, handle_event, apply_round,
}
use quixiot.Loops.Accounts.{inputs_of}

-- Of the packets `ins` that were taken in, all are written but those that wait, at most one, which is due by
-- the time `now`.
pub record Forwards (ins : List Bytes) (now : ℕ) (s : LoopState) : Type 0 where
  pub waiting : List ScheduledPacket
  pub clear : IsClear waiting s.pipeline
  pub none_failed : s.failed ≡ false
  pub one : (waiting ≡ []) ⊎ ((x : ScheduledPacket) × (waiting ≡ x ∷ []) × (x.release_at ≤ now))
  pub order : s.written ++ map (λ (x : ScheduledPacket). x.content) waiting ≡ ins

-- No write fails.
abbrev pub no_fault : ℕ → Bool
no_fault n = false

-- Behind a flush nothing waits.
pub record Idle (ins : List Bytes) (s : LoopState) : Type 0 where
  pub clear : IsClear [] s.pipeline
  pub none_failed : s.failed ≡ false
  pub order : s.written ≡ ins

flush_ready-Idle :
    (ins : List Bytes) (now at : ℕ) (s : LoopState)
    → Forwards ins at s
    → at ≤ now
    → let t = flush_ready no_fault now s in Idle ins t × (t.running ≡ s.running)
unfolding flush_ready write_all
flush_ready-Idle ins now at s h le = elim h.one [
  | inl nothing ↦
      let (out, clear) =
        release_ready_idle now s.pipeline (subst (λ q. IsClear q s.pipeline) nothing h.clear) in
      let same : s.written ++ [] ≡ ins =
        ap (λ (q : List ScheduledPacket). s.written ++ map (λ (x : ScheduledPacket). x.content) q)
          (sym nothing)
        ∙ h.order in
      rw out (
        record {
          clear = clear;
          none_failed = h.none_failed;
          order = sym (append-nil s.written) ∙ same;
        },
        refl,
      )
  | inr (x, is, due) ↦
      let (out, clear) =
        release_ready-IsClear now x s.pipeline (subst (λ q. IsClear q s.pipeline) is h.clear)
          (omega (arith, due, le)) in
      let same : s.written ++ x.content ∷ [] ≡ ins =
        ap (λ (q : List ScheduledPacket). s.written ++ map (λ (x : ScheduledPacket). x.content) q)
          (sym is)
        ∙ h.order in
      rw out (record { clear = clear; none_failed = h.none_failed; order = same }, refl)
]

Idle-Forwards : (ins : List Bytes) (now : ℕ) (s : LoopState) → Idle ins s → Forwards ins now s
Idle-Forwards ins now s h = record {
  waiting = [];
  clear = h.clear;
  none_failed = h.none_failed;
  one = inl refl;
  order = append-nil s.written ∙ h.order;
}

-- The clock at an input.
abbrev pub time_of : LoopEvent → ℕ
time_of (session_done now after) = after
time_of (input now packet) = now
time_of timer_fires = 0

handle_event-Forwards :
    (e : LoopEvent) (ins : List Bytes) (s : LoopState)
    → Idle ins s
    → Forwards (ins ++ inputs_of e) (time_of e) (handle_event no_fault e s)
unfolding handle_event
handle_event-Forwards (session_done now after) ins s h =
    let kept : Idle ins (record s { pipeline = flush now s.pipeline }) = record {
      clear = flush_same now [] s.pipeline h.clear;
      none_failed = h.none_failed;
      order = h.order;
    } in
    let t = record s { pipeline = flush now s.pipeline } in
    let (idle, _) =
      flush_ready-Idle ins after after t (Idle-Forwards ins after t kept) (omega arith) in
    rw (append-nil ins) (
      Idle-Forwards ins after (record (flush_ready no_fault after t) { running = false })
        (record { clear = idle.clear; none_failed = idle.none_failed; order = idle.order }))
handle_event-Forwards (input now packet) ins s h = record {
  waiting = record { content = packet; release_at = now; seq = s.pipeline.next_seq } ∷ [];
  clear = enqueue-IsClear now packet s.pipeline h.clear;
  none_failed = h.none_failed;
  one =
      inr (
        record { content = packet; release_at = now; seq = s.pipeline.next_seq },
        refl,
        omega arith,
      );
  order = ap (λ xs. xs ++ packet ∷ []) h.order;
}
handle_event-Forwards timer_fires ins s h = rw (append-nil ins) (Idle-Forwards ins 0 s h)

-- A round, which comes at the time `now` or later: its event was handled, or the loop had stopped.
pub apply_round-Forwards :
    (r : Round) (ins : List Bytes) (now : ℕ) (s : LoopState)
    → Forwards ins now s
    → now ≤ r.flush_at
    → s.running ≡ true
    → Forwards (ins ++ inputs_of r.event) (time_of r.event) (apply_round no_fault r s)
unfolding apply_round reset_timer
apply_round-Forwards r ins now s h le running =
    let (idle, same) = flush_ready-Idle ins r.flush_at now s h le in
    let t = flush_ready no_fault r.flush_at s in
    if_elim (Forwards (ins ++ inputs_of r.event) (time_of r.event)) t.running
      (handle_event no_fault r.event (reset_timer r.reset_at t)) t
      (λ _.
        handle_event-Forwards r.event ins (reset_timer r.reset_at t)
          (record { clear = idle.clear; none_failed = idle.none_failed; order = idle.order }))
      (λ stop. absurd (ground (arith, stop, same, running)))

-- The flush of such a round does not stop the loop.
pub flush_ready_runs :
    (now at : ℕ) (ins : List Bytes) (s : LoopState)
    → Forwards ins at s
    → at ≤ now
    → (flush_ready no_fault now s).running ≡ s.running
flush_ready_runs now at ins s h le = (flush_ready-Idle ins now at s h le).1

-- The events behind which the loop goes on.
abbrev pub GoesOn : LoopEvent → Type 0
GoesOn (session_done now after) = ⊥
GoesOn (input now packet) = Unit
GoesOn timer_fires = Unit

handle_event_runs :
    (e : LoopEvent) (s : LoopState) → GoesOn e → (handle_event no_fault e s).running ≡ s.running
unfolding handle_event
handle_event_runs (session_done now after) s h = elim h [ ]
handle_event_runs (input now packet) s h = refl
handle_event_runs timer_fires s h = refl

pub apply_round_runs :
    (r : Round) (ins : List Bytes) (now : ℕ) (s : LoopState)
    → Forwards ins now s
    → now ≤ r.flush_at
    → s.running ≡ true
    → GoesOn r.event
    → (apply_round no_fault r s).running ≡ true
unfolding apply_round reset_timer
apply_round_runs r ins now s h le running goes_on =
    let t = flush_ready no_fault r.flush_at s in
    let runs = flush_ready_runs r.flush_at now ins s h le ∙ running in
    if_elim (λ (u : LoopState). u.running ≡ true) t.running
      (handle_event no_fault r.event (reset_timer r.reset_at t)) t
      (λ _. handle_event_runs r.event (reset_timer r.reset_at t) goes_on ∙ runs) (λ _. runs)
