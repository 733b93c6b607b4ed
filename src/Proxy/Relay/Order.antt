-- ===== src/Proxy/Relay/Order.antt =====
-- Where the packets of a direction are.
use quixiot.Prelude.{
  ℕ, ◌≤◌, ◌≡◌, refl, ap, sym, ◌∙◌, ◌⊎◌, inl, inr, Bool, true, false, List, [], ◌∷◌, ◌++◌, Bytes,
  Option, none, some, length, length-append, arith, append-nil, append_assoc, ok, ltb, subst,
  if_elim, Bool-cases,
}
use quixiot.Prelude.Int.{ℤ}
use quixiot.Impair.Pipeline.{Pipeline, Hooks, new_pipeline_with_hooks}
use quixiot.Impair.Pipeline.Clear.{no_impairment, IsClear, new_pipeline-IsClear}
use quixiot.Loops.{LoopEvent, session_done, input, timer_fires, Round, flush_ready}
use quixiot.Loops.Accounts.{inputs_of}
use quixiot.Loops.Passthrough.{Forwards, no_fault, apply_round-Forwards, flush_ready_runs}
use quixiot.Proxy.{queue_depth}
use quixiot.Proxy.Relay.{
  Relay, start_relay, arrive, accept, taken_up, read_upstream, pass_on, left_by, relay_round,
  Offers, Step, arrives, accepts, reads, passes_on, rounds, Reach, here, next,
}

abbrev pub in_hand : Option Bytes → List Bytes
in_hand none = []
in_hand (some packet) = packet ∷ []

-- What came is, in this order: what the loop took, the channel, the packet in hand, and `incoming`.
pub record Relays (r : Relay) : Type 0 where
  pub taken : List Bytes
  pub forwards : Forwards taken r.clock r.loop
  pub order : r.came ≡ taken ++ (r.channel ++ (in_hand r.hand ++ r.incoming))
  pub no_ingress : r.to_server ≡ false → r.incoming ≡ []
  pub incoming_fits : length r.incoming ≤ queue_depth
  pub channel_fits : length r.channel ≤ queue_depth

-- One more at the end.
grown :
    (xs a b c d : List Bytes) (packet : Bytes)
    → xs ≡ a ++ (b ++ (c ++ d))
    → xs ++ packet ∷ [] ≡ a ++ (b ++ (c ++ (d ++ packet ∷ [])))
grown xs a b c d packet e =
    ap (λ ys. ys ++ packet ∷ []) e
    ∙ append_assoc a (b ++ (c ++ d)) (packet ∷ [])
    ∙ ap (λ ys. a ++ ys)
        (append_assoc b (c ++ d) (packet ∷ [])
          ∙ ap (λ ys. b ++ ys) (append_assoc c d (packet ∷ [])))

arrive-Relays :
    (packet : Bytes) (r s : Relay)
    → r.to_server ≡ true
    → Relays r
    → arrive packet r ≡ some s
    → Relays s
unfolding arrive
arrive-Relays packet r s up h e = elim (Bool-cases (ltb (length r.incoming) queue_depth)) [
  | inr full ↦ absurd (ground (arith, e, full))
  | inl room ↦
      let t = record r { came = r.came ++ packet ∷ []; incoming = r.incoming ++ packet ∷ [] } in
      let same : t ≡ s = ground (arith, e, room) in
      subst Relays same (record {
        taken = h.taken;
        forwards = h.forwards;
        order = grown r.came h.taken r.channel (in_hand r.hand) r.incoming packet h.order;
        no_ingress = λ down. absurd (ground (arith, down, up));
        incoming_fits = ground (arith, room, length-append r.incoming (packet ∷ []));
        channel_fits = h.channel_fits;
      })
]

accept-Relays : (r s : Relay) → r.to_server ≡ true → Relays r → accept r ≡ some s → Relays s
unfolding accept
accept-Relays r s up h e = go r.incoming r.hand h.order h.incoming_fits e
  where
    go :
        (incoming : List Bytes) (hand : Option Bytes)
        → r.came ≡ h.taken ++ (r.channel ++ (in_hand hand ++ incoming))
        → length incoming ≤ queue_depth
        → taken_up incoming hand r ≡ some s
        → Relays s
    go (packet ∷ rest) none order fits taken =
        let same : record r { incoming = rest; hand = some packet } ≡ s = ground (arith, taken) in
        subst Relays same (record {
          taken = h.taken;
          forwards = h.forwards;
          order = order;
          no_ingress = λ down. absurd (ground (arith, down, up));
          incoming_fits = omega (arith, fits);
          channel_fits = h.channel_fits;
        })
    go (packet ∷ rest) (some x) order fits taken = absurd (ground (arith, taken))
    go [] none order fits taken = absurd (ground (arith, taken))
    go [] (some x) order fits taken = absurd (ground (arith, taken))

Hand-cases : (o : Option Bytes) → (o ≡ none) ⊎ ((x : Bytes) × (o ≡ some x))
Hand-cases none = inl refl
Hand-cases (some x) = inr (x, refl)

read_upstream-Relays :
    (packet : Bytes) (r s : Relay)
    → r.to_server ≡ false
    → Relays r
    → read_upstream packet r ≡ some s
    → Relays s
unfolding read_upstream
read_upstream-Relays packet r s down h e = elim (Hand-cases r.hand) [
  | inr (x, full) ↦ absurd (ground (arith, e, full))
  | inl free ↦
      let t = record r { came = r.came ++ packet ∷ []; hand = some packet } in
      let same : t ≡ s = ground (arith, e, free) in
      let nothing = h.no_ingress down in
      let order : r.came ≡ h.taken ++ (r.channel ++ ([] ++ [])) =
        subst (λ (i : List Bytes). r.came ≡ h.taken ++ (r.channel ++ ([] ++ i))) nothing
          (subst
            (λ (o : Option Bytes). r.came ≡ h.taken ++ (r.channel ++ (in_hand o ++ r.incoming)))
            free h.order) in
      subst Relays same (record {
        taken = h.taken;
        forwards = h.forwards;
        order =
            subst (λ (i : List Bytes). r.came ++ packet ∷ [] ≡ h.taken ++ (r.channel ++ packet ∷ i))
              (sym nothing) (grown r.came h.taken r.channel [] [] packet order);
        no_ingress = h.no_ingress;
        incoming_fits = h.incoming_fits;
        channel_fits = h.channel_fits;
      })
]

pass_on-Relays : (r s : Relay) → Relays r → pass_on r ≡ some s → Relays s
unfolding pass_on
pass_on-Relays r s h e = elim (Hand-cases r.hand) [
  | inl free ↦ absurd (ground (arith, e, free))
  | inr (x, full) ↦ elim (Bool-cases (ltb (length r.channel) queue_depth)) [
    | inr no_room ↦ absurd (ground (arith, e, full, no_room))
    | inl room ↦
        let t = record r { hand = none; channel = r.channel ++ x ∷ [] } in
        let same : t ≡ s = ground (arith, e, full, room) in
        subst Relays same (record {
          taken = h.taken;
          forwards = h.forwards;
          order =
              subst
                (λ (o : Option Bytes). r.came ≡ h.taken ++ (r.channel ++ (in_hand o ++ r.incoming)))
                full h.order
              ∙ ap (λ ys. h.taken ++ ys) (sym (append_assoc r.channel (x ∷ []) r.incoming));
          no_ingress = h.no_ingress;
          incoming_fits = h.incoming_fits;
          channel_fits = ground (arith, room, length-append r.channel (x ∷ []));
        })
  ]
]

left_by_order :
    (e : LoopEvent) (taken channel tail : List Bytes)
    → Offers e channel
    → taken ++ (channel ++ tail) ≡ (taken ++ inputs_of e) ++ (left_by e channel ++ tail)
unfolding left_by
left_by_order (input now packet) taken channel tail (rest, is) =
    rw is (sym (append_assoc taken (packet ∷ []) (rest ++ tail)))
left_by_order (session_done now after) taken channel tail o = rw (append-nil taken) refl
left_by_order timer_fires taken channel tail o = rw (append-nil taken) refl

left_by_fits : (e : LoopEvent) (channel : List Bytes) → length (left_by e channel) ≤ length channel
unfolding left_by
left_by_fits (input now packet) [] = omega arith
left_by_fits (input now packet) (x ∷ rest) = omega arith
left_by_fits (session_done now after) channel = omega arith
left_by_fits timer_fires channel = omega arith

relay_round-Relays :
    (e : Round) (r : Relay)
    → Relays r
    → r.loop.running ≡ true
    → r.clock ≤ e.flush_at
    → Offers e.event r.channel
    → Relays (relay_round no_fault e r)
unfolding relay_round
relay_round-Relays e r h running on_time offers =
    let runs : (flush_ready no_fault e.flush_at r.loop).running ≡ true =
      flush_ready_runs e.flush_at r.clock h.taken r.loop h.forwards on_time ∙ running in
    let tail = in_hand r.hand ++ r.incoming in
    record {
      taken = h.taken ++ inputs_of e.event;
      forwards = apply_round-Forwards e h.taken r.clock r.loop h.forwards on_time running;
      order =
          h.order
          ∙ if_elim
              (λ ch.
                h.taken ++ (r.channel ++ tail) ≡ (h.taken ++ inputs_of e.event) ++ (ch ++ tail))
              (flush_ready no_fault e.flush_at r.loop).running (left_by e.event r.channel) r.channel
              (λ _. left_by_order e.event h.taken r.channel tail offers)
              (λ stop. absurd (ground (arith, stop, runs)));
      no_ingress = h.no_ingress;
      incoming_fits = h.incoming_fits;
      channel_fits =
          if_elim (λ (ch : List Bytes). length ch ≤ queue_depth)
            (flush_ready no_fault e.flush_at r.loop).running (left_by e.event r.channel) r.channel
            (λ _. omega (arith, left_by_fits e.event r.channel, h.channel_fits))
            (λ _. h.channel_fits);
    }

Step-Relays : {r s : Relay} → Step r s → Relays r → Relays s
Step-Relays (arrives packet up e) h = arrive-Relays packet _ _ up h e
Step-Relays (accepts up e) h = accept-Relays _ _ up h e
Step-Relays (reads packet down e) h = read_upstream-Relays packet _ _ down h e
Step-Relays (passes_on e) h = pass_on-Relays _ _ h e
Step-Relays {r} (rounds e running on_time offers) h =
    relay_round-Relays e r h running on_time offers

Reach-Relays : {r s : Relay} → Relays r → Reach r s → Relays s
Reach-Relays h here = h
Reach-Relays h (next path step) = Step-Relays step (Reach-Relays h path)

start_relay-Relays :
    (to_server : Bool) (p : Pipeline) → IsClear [] p → Relays (start_relay to_server p)
unfolding start_relay
start_relay-Relays to_server p clear = record {
  taken = [];
  forwards = record {
    waiting = [];
    clear = clear;
    none_failed = refl;
    one = inl refl;
    order = refl;
  };
  order = refl;
  no_ingress = λ _. refl;
  incoming_fits = omega arith;
  channel_fits = omega arith;
}

-- A direction with no impairment, as under the passthrough profile, from its start on, whatever the order of
-- the goroutines' steps is, as long as no write fails: the packets that came are, in the order in which they
-- came and each just once, those written, one that may wait in the pipeline and is due, those in the channel
-- to the loop, the one in a goroutine's hand and those in `incoming`. The channels keep to their depth.
pub relay_keeps_order :
    (source : ℤ → ℕ → ℕ) (seed : ℤ) (hooks : Hooks) (to_server : Bool) {p : Pipeline} {r : Relay}
    → new_pipeline_with_hooks source no_impairment seed hooks ≡ ok p
    → Reach (start_relay to_server p) r
    → Relays r
relay_keeps_order source seed hooks to_server {p} e path =
    Reach-Relays (start_relay-Relays to_server p (new_pipeline-IsClear source seed hooks e)) path
