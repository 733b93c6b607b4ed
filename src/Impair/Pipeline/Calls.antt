-- ===== src/Impair/Pipeline/Calls.antt =====
-- What `Enqueue`, `Flush` and `ReleaseReady` leave of a pipeline's hooks and of their calls.
use quixiot.Prelude.{[], none, ok, arith, ℕ, ◌≡◌, ap, ◌∙◌, Bool, Bytes, Bool-cases, inl, inr}
use quixiot.Prelude.Int.{ℤ}
use quixiot.Impair.Config.{DirectionConfig}
use quixiot.Impair.Pipeline.{
  new_pipeline_with_hooks, Pipeline, Hooks, HookCall, dropped, duplicated, call, roll, enqueue_copy,
  enqueue_kept, enqueue, flush_expired_held, release_ready,
}
use quixiot.Impair.Pipeline.Packets.{call_lem}
use quixiot.Impair.Pipeline.Accounting.{
  drops, duplicates, enqueue_copy-TakesIn, flush_expired_held-TakesIn,
}

call-hooks : (isset : Bool) (c : HookCall) (p : Pipeline) → (call isset c p).hooks ≡ p.hooks
call-hooks isset c p = ap (λ (q : Pipeline). q.hooks) (call_lem isset c p)

module _ (now : ℕ) (content : Bytes) where
  enqueue_copy-hooks : (p : Pipeline) → (enqueue_copy now content p).hooks ≡ p.hooks
  enqueue_copy-hooks p = (enqueue_copy-TakesIn (λ _. 0) now content p).same_hooks

  enqueue_kept-hooks : (p : Pipeline) → (enqueue_kept now content p).hooks ≡ p.hooks
  unfolding enqueue_kept
  enqueue_kept-hooks p =
      let rolled = roll p.cfg.duplicate_probability p.rng in
      let q = record p { rng = rolled.1 } in
      let d = call p.hooks.on_duplicate duplicated q in
      elim (Bool-cases rolled.0) [
        | inl twice ↦
            rw (enqueue_kept, twice)
              (enqueue_copy-hooks (enqueue_copy now content d)
                ∙ (enqueue_copy-hooks d ∙ call-hooks p.hooks.on_duplicate duplicated q))
        | inr once ↦ rw (enqueue_kept, once) (enqueue_copy-hooks q)
      ]

  pub enqueue-hooks : (p : Pipeline) → (enqueue now content p).hooks ≡ p.hooks
  unfolding enqueue
  enqueue-hooks p =
      let f = flush_expired_held now p in
      let same = (flush_expired_held-TakesIn (λ _. 0) now p).same_hooks in
      let rolled = roll f.cfg.drop_probability f.rng in
      let q = record f { rng = rolled.1 } in
      elim (Bool-cases rolled.0) [
        | inl drop ↦ rw (enqueue, drop) (call-hooks f.hooks.on_drop dropped q ∙ same)
        | inr keep ↦ rw (enqueue, keep) (enqueue_kept-hooks q ∙ same)
      ]

-- `ReleaseReady` drops and doubles nothing.
pub release_ready_calls :
    (now : ℕ) (p : Pipeline)
    → let q = (release_ready now p).1 in
      (drops q.calls ≡ drops p.calls)
      × (duplicates q.calls ≡ duplicates p.calls)
      × (q.hooks ≡ p.hooks)
unfolding release_ready
release_ready_calls now p =
    let t = flush_expired_held-TakesIn (λ _. 0) now p in (t.no_drop, t.no_duplicate, t.same_hooks)

-- A pipeline begins with nothing pending and no call made.
pub new_pipeline_fresh :
    (source : ℤ → ℕ → ℕ) (cfg : DirectionConfig) (seed : ℤ) (hooks : Hooks) {p : Pipeline}
    → new_pipeline_with_hooks source cfg seed hooks ≡ ok p
    → (p.queue ≡ []) × (p.held ≡ none) × (p.calls ≡ []) × (p.hooks ≡ hooks)
unfolding new_pipeline_with_hooks
new_pipeline_fresh source cfg seed hooks e = ground arith
