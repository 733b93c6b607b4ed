-- ===== src/Broker/Delivery.antt =====
-- What `Publish` puts into the sessions' channels.
use quixiot.Prelude.{
  ℕ, ◌≤◌, ◌<◌, ◌≡◌, refl, ap, sym, ◌∙◌, Bool, true, false, List, [], ◌∷◌, ◌++◌, some, length, drop,
  ltb, ◌==◌, ◌&&◌, arith, Bool-cases, ==_iff, Option-cases, inl, inr, subst,
}
use quixiot.Wire.{Frame}
use quixiot.Broker.{
  Outbox, Broker, Surface, surface_datagram, surface_stream, out_datagram_depth, out_stream_depth,
  Turns, is_member, members, with_outbox, set_outbox, send_datagram, send_stream, drop_oldest,
  send_or_done, make_room, sent_at_once, enqueue_datagram, enqueue_stream, enqueue_on, deliver_all,
  publish,
}
use quixiot.Broker.Members.{Distinct}

-- No other goroutine does anything meanwhile.
abbrev pub alone : (ℕ → Bool) → (ℕ → Bool) → Turns
alone done picks s = record {
  before = λ b. b;
  before_drop = λ b. b;
  before_send = λ b. b;
  done = done s;
  picks_done = picks s;
}

-- What becomes of a subscriber's channels: the frame comes last into one that has room; the oldest
-- datagram makes room for it; or, only where the session's context is done, it is given up.
pub data Got (frame : Frame) (done : Bool) (o p : Outbox) : Surface → Type 0 where
  last_datagram :
      length o.datagrams < out_datagram_depth
      → p.datagrams ≡ o.datagrams ++ frame ∷ []
      → p.streams ≡ o.streams
      → Got frame done o p surface_datagram
  for_oldest :
      out_datagram_depth ≤ length o.datagrams
      → p.datagrams ≡ drop 1 o.datagrams ++ frame ∷ []
      → p.streams ≡ o.streams
      → Got frame done o p surface_datagram
  without_datagram :
      out_datagram_depth ≤ length o.datagrams
      → done ≡ true
      → p.datagrams ≡ drop 1 o.datagrams
      → p.streams ≡ o.streams
      → Got frame done o p surface_datagram
  last_stream :
      length o.streams < out_stream_depth
      → p.streams ≡ o.streams ++ frame ∷ []
      → p.datagrams ≡ o.datagrams
      → Got frame done o p surface_stream
  without_stream : done ≡ true → p ≡ o → Got frame done o p surface_stream

-- A call on one subscriber changes nothing but its channels.
pub record Enqueued (surface : Surface) (frame : Frame) (done : Bool) (s : ℕ) (b c : Broker)
    : Type 0 where
  pub got : Got frame done (b.outbox s) (c.outbox s) surface
  pub others : (r : ℕ) → (s == r) ≡ false → c.outbox r ≡ b.outbox r
  pub same : c ≡ record b { outbox = c.outbox }

pub set_outbox_here : (m : ℕ → Outbox) (s : ℕ) (o : Outbox) → set_outbox m s o s ≡ o
set_outbox_here m s o = ground arith

with_outbox-Enqueued :
    (surface : Surface) (frame : Frame) (done : Bool) (s : ℕ) (o : Outbox) (b : Broker)
    → Got frame done (b.outbox s) o surface
    → Enqueued surface frame done s b (with_outbox s o b)
with_outbox-Enqueued surface frame done s o b g = record {
  got = subst (λ q. Got frame done (b.outbox s) q surface) (sym (set_outbox_here b.outbox s o)) g;
  others = λ r miss. ground (arith, miss);
  same = refl;
}

-- A call that first changes the channels and then puts them as it should.
twice-Enqueued :
    (surface : Surface) (frame : Frame) (done : Bool) (s : ℕ) (o p : Outbox) (b : Broker)
    → Got frame done (b.outbox s) o surface
    → Enqueued surface frame done s b (with_outbox s o (with_outbox s p b))
twice-Enqueued surface frame done s o p b g = record {
  got =
      subst (λ q. Got frame done (b.outbox s) q surface)
        (sym (set_outbox_here (with_outbox s p b).outbox s o)) g;
  others = λ r miss. ground (arith, miss);
  same = refl;
}

module _ (done picks : ℕ → Bool) (frame : Frame) where
  stream-Enqueued :
      (s : ℕ) (b c : Broker)
      → enqueue_stream (alone done picks s) frame s b ≡ some c
      → Enqueued surface_stream frame (done s) s b c
  unfolding enqueue_stream send_or_done send_stream
  stream-Enqueued s b c e =
      let o = record (b.outbox s) { streams = (b.outbox s).streams ++ frame ∷ [] } in
      let gives_up : done s ≡ true → Enqueued surface_stream frame (done s) s b b =
        λ over. record { got = without_stream over refl; others = λ r miss. refl; same = refl } in
      elim (Bool-cases (ltb (length (b.outbox s).streams) out_stream_depth)) [
        | inl room ↦ elim (Bool-cases (done s && picks s)) [
          | inl over ↦
              subst (Enqueued surface_stream frame (done s) s b) {x = b} {y = c}
                (ground (arith, e, room, over)) (gives_up (ground (arith, over)))
          | inr on ↦
              subst (Enqueued surface_stream frame (done s) s b) {x = with_outbox s o b} {y = c}
                (ground (arith, e, room, on))
                (with_outbox-Enqueued surface_stream frame (done s) s o b
                  (last_stream (ground (arith, room)) refl refl))
        ]
        | inr full ↦
            subst (Enqueued surface_stream frame (done s) s b) {x = b} {y = c}
              (ground (arith, e, full)) (gives_up (ground (arith, e, full)))
      ]

  -- Behind the drop.
  room-Enqueued :
      (s : ℕ) (b c : Broker)
      → out_datagram_depth ≤ length (b.outbox s).datagrams
      → make_room (alone done picks s) frame s b ≡ some c
      → Enqueued surface_datagram frame (done s) s b c
  unfolding make_room send_or_done send_datagram drop_oldest
  room-Enqueued s b c full e =
      let p = record (b.outbox s) { datagrams = drop 1 (b.outbox s).datagrams } in
      let d = with_outbox s p b in
      let o = record p { datagrams = p.datagrams ++ frame ∷ [] } in
      let there : set_outbox b.outbox s p s ≡ p = set_outbox_here b.outbox s p in
      let e' = rw there at e in
      let gives_up : done s ≡ true → Enqueued surface_datagram frame (done s) s b d = λ over.
        with_outbox-Enqueued surface_datagram frame (done s) s p b
          (without_datagram full over refl refl) in
      elim (Bool-cases (ltb (length p.datagrams) out_datagram_depth)) [
        | inl room ↦ elim (Bool-cases (done s && picks s)) [
          | inl over ↦
              subst (Enqueued surface_datagram frame (done s) s b) {x = d} {y = c}
                (ground (arith, e', room, over)) (gives_up (ground (arith, over)))
          | inr on ↦
              subst (Enqueued surface_datagram frame (done s) s b) {x = with_outbox s o d} {y = c}
                (ground (arith, e', room, on))
                (twice-Enqueued surface_datagram frame (done s) s o p b (for_oldest full refl refl))
        ]
        | inr still ↦
            subst (Enqueued surface_datagram frame (done s) s b) {x = d} {y = c}
              (ground (arith, e', still)) (gives_up (ground (arith, e', still)))
      ]

  datagram-Enqueued :
      (s : ℕ) (b c : Broker)
      → enqueue_datagram (alone done picks s) frame s b ≡ some c
      → Enqueued surface_datagram frame (done s) s b c
  unfolding enqueue_datagram sent_at_once send_datagram
  datagram-Enqueued s b c e =
      let o = record (b.outbox s) { datagrams = (b.outbox s).datagrams ++ frame ∷ [] } in
      elim (Bool-cases (ltb (length (b.outbox s).datagrams) out_datagram_depth)) [
        | inl room ↦
            subst (Enqueued surface_datagram frame (done s) s b) {x = with_outbox s o b} {y = c}
              (ground (arith, e, room))
              (with_outbox-Enqueued surface_datagram frame (done s) s o b
                (last_datagram (ground (arith, room)) refl refl))
        | inr full ↦ room-Enqueued s b c (ground (arith, full)) (ground (arith, e, full))
      ]

  pub enqueue_on-Enqueued :
      (surface : Surface) (s : ℕ) (b c : Broker)
      → enqueue_on (alone done picks s) surface frame s b ≡ some c
      → Enqueued surface frame (done s) s b c
  unfolding enqueue_on
  enqueue_on-Enqueued surface_datagram s b c e = datagram-Enqueued s b c e
  enqueue_on-Enqueued surface_stream s b c e = stream-Enqueued s b c e

  -- The loop over subscribers that stand there once each.
  deliver_all-Enqueued :
      (surface : Surface) (xs : List ℕ) (b c : Broker)
      → Distinct xs
      → deliver_all (alone done picks) surface frame xs b ≡ some c
      → ((r : ℕ) → is_member r xs ≡ true → Got frame (done r) (b.outbox r) (c.outbox r) surface)
        × ((r : ℕ) → is_member r xs ≡ false → c.outbox r ≡ b.outbox r)
        × (c ≡ record b { outbox = c.outbox })
  unfolding deliver_all is_member
  deliver_all-Enqueued surface [] b c d e =
      let same : b ≡ c = ground (arith, e) in
      (
        λ r h. cc,
        λ r h. ap (λ (x : Broker). x.outbox r) (sym same),
        sym same ∙ ap (λ (x : Broker). record b { outbox = x.outbox }) same,
      )
  deliver_all-Enqueued surface (s ∷ xs) b c d e =
      elim (Option-cases (enqueue_on (alone done picks s) surface frame s b)) [
        | inl blocked ↦ absurd (ground (arith, e, blocked))
        | inr (m, went) ↦
            let first = enqueue_on-Enqueued surface s b m went in
            let (each, others, same) =
              deliver_all-Enqueued surface xs m c d.1 (ground (arith, e, went)) in
            (
              λ r h. elim (Bool-cases (s == r)) [
                | inl hit ↦
                    let e' : s ≡ r = (==_iff s r).0 hit in
                    subst (λ k. Got frame (done k) (b.outbox k) (c.outbox k) surface) e'
                      (subst (λ q. Got frame (done s) (b.outbox s) q surface) (sym (others s d.0))
                        first.got)
                | inr miss ↦
                    subst (λ q. Got frame (done r) q (c.outbox r) surface) (first.others r miss)
                      (each r (ground (arith, h, miss)))
              ],
              λ r h. others r (ground (arith, h)) ∙ first.others r (ground (arith, h)),
              same ∙ ap (λ (x : Broker). record x { outbox = c.outbox }) first.same,
            )
      ]

-- Where `Publish` returns and no other goroutine does anything meanwhile, each session that is subscribed
-- to the frame's topic has the frame last in its channel for the surface, behind what was there, less
-- the oldest datagram of a full channel; a session whose context is done may miss it. The channels of
-- every other session are as they were, and so is all else that the broker keeps.
pub publish_delivers :
    (done picks : ℕ → Bool) (frame : Frame) (surface : Surface) (b c : Broker)
    → Distinct (members b frame.topic)
    → publish (alone done picks) frame surface b ≡ some c
    → ((r : ℕ)
        → is_member r (members b frame.topic) ≡ true
        → Got frame (done r) (b.outbox r) (c.outbox r) surface)
      × ((r : ℕ) → is_member r (members b frame.topic) ≡ false → c.outbox r ≡ b.outbox r)
      × (c ≡ record b { outbox = c.outbox })
unfolding publish
publish_delivers done picks frame surface b c d e =
    deliver_all-Enqueued done picks frame surface (members b frame.topic) b c d e
