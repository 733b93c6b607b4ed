-- ===== src/Loops/Accounts.antt =====
-- Every packet that a loop takes in is written, pending, dropped, or one of two.
use quixiot.Prelude.{
  ok, append_assoc, if_elim, ℕ, ◌+◌, ◌*◌, ◌≤◌, ◌≡◌, refl, ap, sym, ◌∙◌, subst, Bool, true, false,
  List, [], ◌∷◌, ◌++◌, Bytes, Option, none, length, map, total, total-append, arith, Bool-cases,
  inl, inr, ◌⊎◌, append-nil,
}
use quixiot.Prelude.Int.{ℤ}
use quixiot.Impair.Config.{DirectionConfig}
use quixiot.Impair.Pipeline.{
  new_pipeline_with_hooks, Pipeline, Hooks, ScheduledPacket, enqueue, flush, release_ready,
}
use quixiot.Impair.Pipeline.Packets.{IsOrdered, pending, queue_weight, held_weight}
use quixiot.Impair.Pipeline.Accounting.{drops, duplicates, flush-TakesIn, enqueue_accounts}
use quixiot.Impair.Pipeline.Release.{release_ready-Releases}
use quixiot.Impair.Pipeline.Calls.{enqueue-hooks, release_ready_calls, new_pipeline_fresh}
use quixiot.Loops.{
  LoopState, LoopEvent, session_done, input, timer_fires, Round, write_all, flush_ready,
  reset_timer, handle_event, apply_round, apply_loop, start_loop, pipeline_hooks,
}

-- The packets that an event and that the rounds bring.
abbrev pub inputs_of : LoopEvent → List Bytes
inputs_of (session_done now after) = []
inputs_of (input now packet) = packet ∷ []
inputs_of timer_fires = []

abbrev pub inputs : List Round → List Bytes
inputs [] = []
inputs (r ∷ rest) = inputs_of r.event ++ inputs rest

-- `ins` are the packets taken in.
pub record Accounts (ins : List Bytes) (s : LoopState) : Type 0 where
  pub ordered : IsOrdered s.pipeline.queue
  pub drop_set : s.pipeline.hooks.on_drop ≡ true
  pub duplicate_set : s.pipeline.hooks.on_duplicate ≡ true
  pub genuine : (w : Bytes → ℕ) → total w s.written + pending w s.pipeline ≤ 2 * total w ins
  pub counted :
      s.failed ≡ false
      → length s.written + pending (λ _. 1) s.pipeline + drops s.pipeline.calls
        ≡ length ins + duplicates s.pipeline.calls

length-total : (xs : List Bytes) → total (λ _. 1) xs ≡ length xs
length-total [] = refl
length-total (x ∷ xs) = omega (arith, length-total xs)

total-contents :
    (w : Bytes → ℕ) (out : List ScheduledPacket)
    → total w (map (λ (x : ScheduledPacket). x.content) out) ≡ queue_weight w out
total-contents w [] = refl
total-contents w (x ∷ out) = omega (arith, total-contents w out)

write_all_lem :
    (w : Bytes → ℕ) (fails : ℕ → Bool) (ready written : List Bytes)
    → let (out, good) = write_all fails ready written in
      (total w out ≤ total w written + total w ready)
      × (good ≡ true → total w out ≡ total w written + total w ready)
unfolding write_all
write_all_lem w fails [] written = (omega arith, λ e. omega arith)
write_all_lem w fails (x ∷ rest) written =
    let (below, same) = write_all_lem w fails rest (written ++ x ∷ []) in
    let one = total-append w written (x ∷ []) in
    elim (Bool-cases (fails (length written))) [
      | inl bad ↦ rw bad (omega arith, λ e. cc)
      | inr good ↦ rw good (omega (arith, below, one), λ e. omega (arith, same e, one))
    ]

module _ (fails : ℕ → Bool) (now : ℕ) (s : LoopState) (h : IsOrdered s.pipeline.queue) where
  -- What a flush writes and leaves pending is no more than what was pending.
  flush_ready-genuine :
      (w : Bytes → ℕ)
      → let t = flush_ready fails now s in
        total w t.written + pending w t.pipeline ≤ total w s.written + pending w s.pipeline
  unfolding flush_ready
  flush_ready-genuine w =
      let r = release_ready-Releases now s.pipeline h in
      let ready = (release_ready now s.pipeline).0 in
      let taken = ap (total w) r.contents ∙ total-contents w r.out in
      let (below, _) = write_all_lem w fails ready s.written in
      elim (Bool-cases (write_all fails ready s.written).1) [
        | inl good ↦ rw good (omega (arith, taken, below, r.conserved w))
        | inr bad ↦ rw bad (omega (arith, taken, below, r.conserved w))
      ]

  -- If no write failed, it is the same.
  flush_ready-counted :
      let t = flush_ready fails now s in
      t.failed ≡ false
      → length t.written + pending (λ _. 1) t.pipeline
        ≡ length s.written + pending (λ _. 1) s.pipeline
  unfolding flush_ready
  flush_ready-counted =
      let r = release_ready-Releases now s.pipeline h in
      let ready = (release_ready now s.pipeline).0 in
      let taken = ap (total (λ _. 1)) r.contents ∙ total-contents (λ _. 1) r.out in
      let (_, same) = write_all_lem (λ _. 1) fails ready s.written in
      elim (Bool-cases (write_all fails ready s.written).1) [
        | inl good ↦ rw good λ _. omega (
          arith,
          taken,
          same good,
          r.conserved (λ _. 1),
          length-total (write_all fails ready s.written).0,
          length-total s.written,
        )
        | inr bad ↦ rw bad (λ e. cc)
      ]

  flush_ready-rest :
      let t = flush_ready fails now s in
      IsOrdered t.pipeline.queue
      × (t.pipeline.hooks ≡ s.pipeline.hooks)
      × (drops t.pipeline.calls ≡ drops s.pipeline.calls)
      × (duplicates t.pipeline.calls ≡ duplicates s.pipeline.calls)
      × (t.failed ≡ false → s.failed ≡ false)
  unfolding flush_ready
  flush_ready-rest =
      let r = release_ready-Releases now s.pipeline h in
      let (drop_same, dup_same, hooks_same) = release_ready_calls now s.pipeline in
      let ready = (release_ready now s.pipeline).0 in
      elim (Bool-cases (write_all fails ready s.written).1) [
        | inl good ↦ rw good (r.ordered, hooks_same, drop_same, dup_same, λ e. e)
        | inr bad ↦ rw bad (r.ordered, hooks_same, drop_same, dup_same, λ e. cc)
      ]

pub flush_ready-Accounts :
    (fails : ℕ → Bool) (now : ℕ) (ins : List Bytes) (s : LoopState)
    → Accounts ins s
    → Accounts ins (flush_ready fails now s)
flush_ready-Accounts fails now ins s h =
    let (ordered, hooks, drop, dup, fine) = flush_ready-rest fails now s h.ordered in
    record {
      ordered = ordered;
      drop_set = ap (λ (k : Hooks). k.on_drop) hooks ∙ h.drop_set;
      duplicate_set = ap (λ (k : Hooks). k.on_duplicate) hooks ∙ h.duplicate_set;
      genuine = λ w. omega (arith, flush_ready-genuine fails now s h.ordered w, h.genuine w);
      counted = λ e.
          omega (arith, flush_ready-counted fails now s h.ordered e, h.counted (fine e), drop, dup);
    }

-- A loop at its end, whose packets that were held are due.
flush_held-Accounts :
    (now : ℕ) (ins : List Bytes) (s : LoopState)
    → Accounts ins s
    → Accounts ins (record s { pipeline = flush now s.pipeline })
flush_held-Accounts now ins s h =
    let t = flush-TakesIn (λ _. 1) now s.pipeline in
    record {
      ordered = t.ordered h.ordered;
      drop_set = ap (λ (k : Hooks). k.on_drop) t.same_hooks ∙ h.drop_set;
      duplicate_set = ap (λ (k : Hooks). k.on_duplicate) t.same_hooks ∙ h.duplicate_set;
      genuine = λ w. omega (arith, (flush-TakesIn w now s.pipeline).weighs h.ordered, h.genuine w);
      counted = λ e. omega (arith, t.weighs h.ordered, h.counted e, t.no_drop, t.no_duplicate);
    }

input-Accounts :
    (now : ℕ) (packet : Bytes) (ins : List Bytes) (s : LoopState)
    → Accounts ins s
    → Accounts (ins ++ packet ∷ []) (record s { pipeline = enqueue now packet s.pipeline })
input-Accounts now packet ins s h =
    let p = s.pipeline in
    let at =
      λ (w : Bytes → ℕ). enqueue_accounts w now packet p h.drop_set h.duplicate_set h.ordered in
    let hooks = enqueue-hooks now packet p in
    let count = total-append (λ _. 1) ins (packet ∷ []) in
    record {
      ordered = (at (λ _. 1)).0;
      drop_set = ap (λ (k : Hooks). k.on_drop) hooks ∙ h.drop_set;
      duplicate_set = ap (λ (k : Hooks). k.on_duplicate) hooks ∙ h.duplicate_set;
      genuine = λ w.
          let taken = total-append w ins (packet ∷ []) in
          elim (at w).1 [
            | inl (_, _, e) ↦ omega (arith, e, h.genuine w, taken)
            | inr (inl (_, _, e)) ↦ omega (arith, e, h.genuine w, taken)
            | inr (inr (_, _, e)) ↦ omega (arith, e, h.genuine w, taken)
          ];
      counted = λ fine.
          let before = h.counted fine in
          let grown = length-total (ins ++ packet ∷ []) in
          elim (at (λ _. 1)).1 [
            | inl (d, u, e) ↦ omega (arith, d, u, e, before, count, grown, length-total ins)
            | inr (inl (d, u, e)) ↦ omega (arith, d, u, e, before, count, grown, length-total ins)
            | inr (inr (d, u, e)) ↦ omega (arith, d, u, e, before, count, grown, length-total ins)
          ];
    }

-- The timer, and the end of the loop, count for nothing.
same-Accounts :
    (ins : List Bytes) (wake : Option ℕ) (running : Bool) (s : LoopState)
    → Accounts ins s
    → Accounts ins (record s { wake = wake; running = running })
same-Accounts ins wake running s h = record {
  ordered = h.ordered;
  drop_set = h.drop_set;
  duplicate_set = h.duplicate_set;
  genuine = h.genuine;
  counted = h.counted;
}

handle_event-Accounts :
    (fails : ℕ → Bool) (e : LoopEvent) (ins : List Bytes) (s : LoopState)
    → Accounts ins s
    → Accounts (ins ++ inputs_of e) (handle_event fails e s)
unfolding handle_event
handle_event-Accounts fails (session_done now after) ins s h =
    let u = record s { pipeline = flush now s.pipeline } in
    let v = flush_ready fails after u in
    rw (append-nil ins) (
      same-Accounts ins v.wake false v
        (flush_ready-Accounts fails after ins u (flush_held-Accounts now ins s h)))
handle_event-Accounts fails (input now packet) ins s h = input-Accounts now packet ins s h
handle_event-Accounts fails timer_fires ins s h = rw (append-nil ins) h

-- Of the packets `coming`, the loop took those before `rest`; while it runs, that is all of them.
pub record TakesUp (coming ins : List Bytes) (s : LoopState) : Type 0 where
  pub taken : List Bytes
  pub rest : List Bytes
  pub split : coming ≡ taken ++ rest
  pub all : s.running ≡ true → rest ≡ []
  pub accounts : Accounts (ins ++ taken) s

TakesUp-none :
    (coming ins : List Bytes) (s : LoopState)
    → s.running ≡ false
    → Accounts ins s
    → TakesUp coming ins s
TakesUp-none coming ins s e h = record {
  taken = [];
  rest = coming;
  split = refl;
  all = λ r. cc;
  accounts = rw (append-nil ins) h;
}

-- Its loop has stopped or it has taken all that its event brings.
apply_round-Accounts :
    (fails : ℕ → Bool) (r : Round) (ins : List Bytes) (s : LoopState)
    → Accounts ins s
    → (((apply_round fails r s).running ≡ false) × Accounts ins (apply_round fails r s))
      ⊎ Accounts (ins ++ inputs_of r.event) (apply_round fails r s)
unfolding apply_round reset_timer
apply_round-Accounts fails r ins s h =
    let t = flush_ready fails r.flush_at s in
    let flushed = flush_ready-Accounts fails r.flush_at ins s h in
    let u = reset_timer r.reset_at t in
    if_elim (λ v. ((v.running ≡ false) × Accounts ins v) ⊎ Accounts (ins ++ inputs_of r.event) v)
      t.running (handle_event fails r.event u) t
      (λ go.
        inr (
          handle_event-Accounts fails r.event ins u (same-Accounts ins u.wake t.running t flushed)))
      (λ stop. inl (stop, flushed))

TakesUp-cons :
    (xs coming ins : List Bytes) (s : LoopState)
    → TakesUp coming (ins ++ xs) s
    → TakesUp (xs ++ coming) ins s
TakesUp-cons xs coming ins s h = record {
  taken = xs ++ h.taken;
  rest = h.rest;
  split = ap (λ ys. xs ++ ys) h.split ∙ sym (append_assoc xs h.taken h.rest);
  all = h.all;
  accounts = subst (λ ys. Accounts ys s) (append_assoc ins xs h.taken) h.accounts;
}

apply_loop_stopped :
    (fails : ℕ → Bool) (rounds : List Round) (s : LoopState)
    → s.running ≡ false
    → apply_loop fails rounds s ≡ s
unfolding apply_loop
apply_loop_stopped fails [] s e = refl
apply_loop_stopped fails (r ∷ more) s e = ground (arith, e)

-- A loop started over a fresh pipeline, with the hooks that the proxy sets when it has metrics.
pub apply_loop-TakesUp :
    (fails : ℕ → Bool) (rounds : List Round) (ins : List Bytes) (s : LoopState)
    → Accounts ins s
    → TakesUp (inputs rounds) ins (apply_loop fails rounds s)
unfolding apply_loop
apply_loop-TakesUp fails [] ins s h = record {
  taken = [];
  rest = [];
  split = refl;
  all = λ e. refl;
  accounts = rw (append-nil ins) h;
}
apply_loop-TakesUp fails (r ∷ more) ins s h =
    if_elim (TakesUp (inputs (r ∷ more)) ins) s.running
      (apply_loop fails more (apply_round fails r s)) s
      (λ go. elim (apply_round-Accounts fails r ins s h) [
        | inl (stop, kept) ↦
            rw (apply_loop_stopped fails more (apply_round fails r s) stop)
              (TakesUp-none (inputs (r ∷ more)) ins (apply_round fails r s) stop kept)
        | inr grown ↦
            TakesUp-cons (inputs_of r.event) (inputs more) ins
              (apply_loop fails more (apply_round fails r s))
              (apply_loop-TakesUp fails more (ins ++ inputs_of r.event) (apply_round fails r s)
                grown)
      ])
      (λ stop. TakesUp-none (inputs (r ∷ more)) ins s stop h)

fresh-Accounts :
    (p : Pipeline)
    → p.queue ≡ []
    → p.held ≡ none
    → p.calls ≡ []
    → p.hooks ≡ pipeline_hooks true
    → Accounts [] (start_loop p)
fresh-Accounts p queue held calls hooks = record {
  ordered = subst IsOrdered (sym queue) (λ k pk lk. absurd (omega arith));
  drop_set = ap (λ (k : Hooks). k.on_drop) hooks;
  duplicate_set = ap (λ (k : Hooks). k.on_duplicate) hooks;
  genuine = λ w. omega (arith, ap (queue_weight w) queue, ap (held_weight w) held);
  counted = λ e. omega (
    arith,
    ap (queue_weight (λ _. 1)) queue,
    ap (held_weight (λ _. 1)) held,
    ap drops calls,
    ap duplicates calls,
  );
}

-- A direction's loop, started on a new pipeline with the hooks of a proxy that has metrics, takes in
-- the first packets of those that its rounds bring, and all of them while it runs. Of each packet, at
-- any weights on packets, it has written and keeps pending no more than twice what it took in. If no
-- write has failed, the packets written, pending and dropped are as many as those taken in and those
-- doubled, with the drops and the doublings counted by the calls of the hooks.
pub apply_loop_accounts :
    (fails : ℕ → Bool) (rounds : List Round) (source : ℤ → ℕ → ℕ) (cfg : DirectionConfig) (seed : ℤ)
    {p : Pipeline}
    → new_pipeline_with_hooks source cfg seed (pipeline_hooks true) ≡ ok p
    → TakesUp (inputs rounds) [] (apply_loop fails rounds (start_loop p))
apply_loop_accounts fails rounds source cfg seed {p} e =
    let (queue, held, calls, hooks) = new_pipeline_fresh source cfg seed (pipeline_hooks true) e in
    apply_loop-TakesUp fails rounds [] (start_loop p) (fresh-Accounts p queue held calls hooks)
