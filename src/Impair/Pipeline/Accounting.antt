-- ===== src/Impair/Pipeline/Accounting.antt =====
-- Where each packet that comes in goes: dropped, or pending once or twice, as the hooks report.
use quixiot.Prelude.{
  ℕ, suc, ◌+◌, ◌≤◌, ◌≡◌, ◌⊎◌, List, [], ◌∷◌, Bytes, Bool, subst, none, some, ltb, arith, ap, ◌∙◌,
  true, false, Bool-cases, Option-cases, inl, inr, refl,
}
use native.Mathlib.Nat.{add-zero}
use quixiot.Impair.Pipeline.{
  Rng, Hooks, HeldPacket, HookCall, dropped, duplicated, reordered, Pipeline, call, roll, schedule,
  copy_free, copy_behind, enqueue_copy, flush_expired_held, enqueue_kept, enqueue, flush,
}
use quixiot.Impair.Pipeline.Packets.{
  IsOrdered, pending, held_weight, schedule_lem, schedule-queue_weight,
}

-- The calls of `OnDrop` and of `OnDuplicate`.
abbrev pub drops : List HookCall → ℕ
drops [] = 0
drops (dropped ∷ cs) = suc (drops cs)
drops (_ ∷ cs) = drops cs

abbrev pub duplicates : List HookCall → ℕ
duplicates [] = 0
duplicates (duplicated ∷ cs) = suc (duplicates cs)
duplicates (_ ∷ cs) = duplicates cs

-- Between `p` and `q` the pipeline took in packets of weight `more`, and dropped and doubled none.
pub record TakesIn (w : Bytes → ℕ) (more : ℕ) (p q : Pipeline) : Type 0 where
  pub ordered : IsOrdered p.queue → IsOrdered q.queue
  pub weighs : IsOrdered p.queue → pending w q ≡ more + pending w p
  pub no_drop : drops q.calls ≡ drops p.calls
  pub no_duplicate : duplicates q.calls ≡ duplicates p.calls
  pub same_hooks : q.hooks ≡ p.hooks

schedule_calls :
    (now : ℕ) (content : Bytes) (p : Pipeline)
    → (drops (schedule now content p).calls ≡ drops p.calls)
      × (duplicates (schedule now content p).calls ≡ duplicates p.calls)
unfolding schedule call
schedule_calls now content p = ground arith

-- `flush` and `flushExpiredHeld` leave the pipeline, or schedule the packet held.
pub flush_cases :
    (now : ℕ) (p : Pipeline)
    → ((p.held ≡ none) × (flush now p ≡ p))
      ⊎ ((h : HeldPacket) × (p.held ≡ some h)
          × (flush now p ≡ schedule now h.content (record p { held = none })))
unfolding flush
flush_cases now p = elim (Option-cases p.held) [
  | inl e ↦ inl (e, ground (arith, e))
  | inr (h, e) ↦ inr (h, e, ground (arith, e))
]

pub flush_expired_held_cases :
    (now : ℕ) (p : Pipeline)
    → (flush_expired_held now p ≡ p)
      ⊎ ((h : HeldPacket) × (p.held ≡ some h)
          × (h.release_at ≤ now)
          × (flush_expired_held now p ≡ schedule h.release_at h.content (record p { held = none })))
unfolding flush_expired_held
flush_expired_held_cases now p = elim (Option-cases p.held) [
  | inl e ↦ inl (ground (arith, e))
  | inr (h, e) ↦ elim (Bool-cases (ltb now h.release_at)) [
    | inl keep ↦ inl (ground (arith, e, keep))
    | inr over ↦ inr (h, e, ground arith, ground (arith, e, over))
  ]
]

-- `enqueueCopy` holds the packet, schedules it, or schedules it before the packet held.
enqueue_copy_cases :
    (now : ℕ) (content : Bytes) (p : Pipeline)
    → ((p.held ≡ none) × (enqueue_copy now content p ≡ copy_free now content p))
      ⊎ ((h : HeldPacket) × (p.held ≡ some h)
          × (enqueue_copy now content p ≡ copy_behind now content h p))
unfolding enqueue_copy
enqueue_copy_cases now content p = elim (Option-cases p.held) [
  | inl e ↦ inl (e, ground (arith, e))
  | inr (h, e) ↦ inr (h, e, ground (arith, e))
]

module _ (w : Bytes → ℕ) where
  schedule-TakesIn :
      (now : ℕ) (content : Bytes) (p : Pipeline) → TakesIn w (w content) p (schedule now content p)
  schedule-TakesIn now content p =
      let (_, held, _, hooks, _) = schedule_lem now content p in
      record {
        ordered = λ h. (schedule-queue_weight now content p w h).0;
        weighs = λ h.
            omega (arith, ap (held_weight w) held, (schedule-queue_weight now content p w h).1);
        no_drop = (schedule_calls now content p).0;
        no_duplicate = (schedule_calls now content p).1;
        same_hooks = hooks;
      }

  -- A held packet that is scheduled stays pending.
  release_held-TakesIn :
      (now : ℕ) (h : HeldPacket) (p : Pipeline)
      → p.held ≡ some h
      → TakesIn w 0 p (schedule now h.content (record p { held = none }))
  release_held-TakesIn now h p e =
      let t = schedule-TakesIn now h.content (record p { held = none }) in
      record {
        ordered = t.ordered;
        weighs = λ o. omega (arith, t.weighs o, ap (held_weight w) e);
        no_drop = t.no_drop;
        no_duplicate = t.no_duplicate;
        same_hooks = t.same_hooks;
      }

  TakesIn-refl : (p : Pipeline) → TakesIn w 0 p p
  TakesIn-refl p = record {
    ordered = λ h. h;
    weighs = λ h. omega arith;
    no_drop = refl;
    no_duplicate = refl;
    same_hooks = refl;
  }

  TakesIn-trans :
      (a b : ℕ) (p q r : Pipeline) → TakesIn w a p q → TakesIn w b q r → TakesIn w (a + b) p r
  TakesIn-trans a b p q r s t = record {
    ordered = λ h. t.ordered (s.ordered h);
    weighs = λ h. omega (arith, s.weighs h, t.weighs (s.ordered h));
    no_drop = t.no_drop ∙ s.no_drop;
    no_duplicate = t.no_duplicate ∙ s.no_duplicate;
    same_hooks = t.same_hooks ∙ s.same_hooks;
  }

  pub flush_expired_held-TakesIn :
      (now : ℕ) (p : Pipeline) → TakesIn w 0 p (flush_expired_held now p)
  flush_expired_held-TakesIn now p = elim (flush_expired_held_cases now p) [
    | inl e ↦ rw e (TakesIn-refl p)
    | inr (h, e, _, f) ↦ rw f (release_held-TakesIn h.release_at h p e)
  ]

  pub flush-TakesIn : (now : ℕ) (p : Pipeline) → TakesIn w 0 p (flush now p)
  flush-TakesIn now p = elim (flush_cases now p) [
    | inl (_, e) ↦ rw e (TakesIn-refl p)
    | inr (h, e, f) ↦ rw f (release_held-TakesIn now h p e)
  ]

  -- A draw changes the generator alone.
  TakesIn-draw :
      (a : ℕ) (r : Rng) (p q : Pipeline) → TakesIn w a (record p { rng = r }) q → TakesIn w a p q
  TakesIn-draw a r p q t = record {
    ordered = t.ordered;
    weighs = t.weighs;
    no_drop = t.no_drop;
    no_duplicate = t.no_duplicate;
    same_hooks = t.same_hooks;
  }

  hold-TakesIn :
      (isset : Bool) (kept : HeldPacket) (p : Pipeline)
      → p.held ≡ none
      → TakesIn w (w kept.content) p (record (call isset reordered p) { held = some kept })
  unfolding call
  hold-TakesIn true kept p e = record {
    ordered = λ h. h;
    weighs = λ h. omega (arith, ap (held_weight w) e);
    no_drop = refl;
    no_duplicate = refl;
    same_hooks = refl;
  }
  hold-TakesIn false kept p e = record {
    ordered = λ h. h;
    weighs = λ h. omega (arith, ap (held_weight w) e);
    no_drop = refl;
    no_duplicate = refl;
    same_hooks = refl;
  }

  copy_free-TakesIn :
      (now : ℕ) (content : Bytes) (p : Pipeline)
      → p.held ≡ none
      → TakesIn w (w content) p (copy_free now content p)
  unfolding copy_free
  copy_free-TakesIn now content p e =
      let rolled = roll p.cfg.reorder_probability p.rng in
      let q = record p { rng = rolled.1 } in
      elim (Bool-cases rolled.0) [
        | inl hold ↦
            rw (hold, copy_free)
              (TakesIn-draw (w content) rolled.1 p _ (hold-TakesIn p.hooks.on_reorder _ q e))
        | inr pass ↦
            rw (pass, copy_free)
              (TakesIn-draw (w content) rolled.1 p _ (schedule-TakesIn now content q))
      ]

  pub enqueue_copy-TakesIn :
      (now : ℕ) (content : Bytes) (p : Pipeline)
      → TakesIn w (w content) p (enqueue_copy now content p)
  unfolding copy_behind
  enqueue_copy-TakesIn now content p = elim (enqueue_copy_cases now content p) [
    | inl (e, f) ↦ rw f (copy_free-TakesIn now content p e)
    | inr (h, e, f) ↦
        let first = schedule-TakesIn now content p in
        let second =
          release_held-TakesIn now h (schedule now content p)
            ((schedule_lem now content p).1 ∙ e) in
        rw f (
          subst (λ n. TakesIn w n p (copy_behind now content h p)) (add-zero (w content))
            (TakesIn-trans (w content) 0 p _ _ first second))
  ]

-- A hook that is set is called.
call_set :
    (isset : Bool) (c : HookCall) (p : Pipeline)
    → isset ≡ true
    → call isset c p ≡ record p { calls = c ∷ p.calls }
unfolding call
call_set true c p e = refl
call_set false c p e = cc

module _ (w : Bytes → ℕ) (now : ℕ) (content : Bytes) where
  twice-TakesIn :
      (p : Pipeline)
      → TakesIn w (w content + w content) p (enqueue_copy now content (enqueue_copy now content p))
  twice-TakesIn p =
      TakesIn-trans w (w content) (w content) p _ _ (enqueue_copy-TakesIn w now content p)
        (enqueue_copy-TakesIn w now content _)

  -- Behind the roll for a drop: one copy, or a call of `OnDuplicate` and two copies.
  enqueue_kept_cases :
      (p : Pipeline)
      → p.hooks.on_duplicate ≡ true
      → TakesIn w (w content) p (enqueue_kept now content p)
        ⊎ TakesIn w
            (w content + w content)
            (record p { calls = duplicated ∷ p.calls })
            (enqueue_kept now content p)
  unfolding enqueue_kept
  enqueue_kept_cases p isset =
      let rolled = roll p.cfg.duplicate_probability p.rng in
      let q = record p { rng = rolled.1 } in
      elim (Bool-cases rolled.0) [
        | inl twice ↦ inr (
            rw (twice, enqueue_kept)
              (rw (call_set p.hooks.on_duplicate duplicated q isset) (
                TakesIn-draw w (w content + w content) rolled.1 _ _
                  (twice-TakesIn (record q { calls = duplicated ∷ p.calls })))))
        | inr once ↦ inl (
            rw (once, enqueue_kept)
              (TakesIn-draw w (w content) rolled.1 p _ (enqueue_copy-TakesIn w now content q)))
      ]

  -- With `OnDrop` and `OnDuplicate` set, `Enqueue` keeps the queue in heap order and does one of
  -- three things: it calls `OnDrop` and leaves the pending packets as they were, by every weight on
  -- their bytes; or it calls neither hook and adds the packet; or it calls `OnDuplicate` and adds the
  -- packet twice.
  pub enqueue_accounts :
      (p : Pipeline)
      → p.hooks.on_drop ≡ true
      → p.hooks.on_duplicate ≡ true
      → IsOrdered p.queue
      → let q = enqueue now content p in
        IsOrdered q.queue
        × (((drops q.calls ≡ suc (drops p.calls))
              × (duplicates q.calls ≡ duplicates p.calls)
              × (pending w q ≡ pending w p))
            ⊎ ((drops q.calls ≡ drops p.calls)
                × (duplicates q.calls ≡ duplicates p.calls)
                × (pending w q ≡ w content + pending w p))
            ⊎ ((drops q.calls ≡ drops p.calls)
                × (duplicates q.calls ≡ suc (duplicates p.calls))
                × (pending w q ≡ w content + w content + pending w p)))
  unfolding enqueue
  enqueue_accounts p set_drop set_dup h =
      let f = flush_expired_held now p in
      let t = flush_expired_held-TakesIn w now p in
      let rolled = roll f.cfg.drop_probability f.rng in
      let q = record f { rng = rolled.1 } in
      elim (Bool-cases rolled.0) [
        | inl drop ↦
            rw (drop, enqueue)
              (rw
                (call_set f.hooks.on_drop dropped q
                  (ap (λ (k : Hooks). k.on_drop) t.same_hooks ∙ set_drop))
                (t.ordered h, inl (ap suc t.no_drop, t.no_duplicate, t.weighs h ∙ omega arith)))
        | inr keep ↦
            rw (keep, enqueue)
              (elim (enqueue_kept_cases q
                (ap (λ (k : Hooks). k.on_duplicate) t.same_hooks ∙ set_dup)) [
                  | inl u ↦ (
                    u.ordered (t.ordered h),
                    inr (
                        inl (
                          u.no_drop ∙ t.no_drop,
                          u.no_duplicate ∙ t.no_duplicate,
                          omega (arith, u.weighs (t.ordered h), t.weighs h),
                        )),
                  )
                  | inr u ↦ (
                    u.ordered (t.ordered h),
                    inr (
                        inr (
                          u.no_drop ∙ t.no_drop,
                          u.no_duplicate ∙ ap suc t.no_duplicate,
                          omega (arith, u.weighs (t.ordered h), t.weighs h),
                        )),
                  )
                ])
      ]
