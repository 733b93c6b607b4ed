-- ===== src/Broker/Room.antt =====
-- Publications return where no other goroutine does anything meanwhile: of datagrams always, and on
-- streams where each subscriber's channel has room.
use quixiot.Prelude.{
  ℕ, ◌≤◌, ◌<◌, ◌≡◌, refl, ap, sym, subst, Bool, true, false, List, [], ◌∷◌, ◌++◌, Bytes, some, drop,
  length, length-drop, length-append, ltb, lt→ltb, ◌==◌, ==_iff, if◌then◌else◌, ◌&&◌, arith,
  Bool-cases, inl, inr,
}
use quixiot.Wire.{Frame}
use quixiot.Broker.{
  Broker, Outbox, Surface, surface_datagram, surface_stream, out_datagram_depth, out_stream_depth,
  new_broker, is_member, members, subscribe, unsubscribe, cleanup, with_outbox, send_datagram,
  send_stream, drop_oldest, send_or_done, make_room, sent_at_once, enqueue_datagram, enqueue_stream,
  enqueue_on, deliver_all, publish,
}
use quixiot.Broker.Members.{Distinct}
use quixiot.Broker.Subscribers.{Step, Reach}
use quixiot.Broker.Delivery.{alone, set_outbox_here, enqueue_on-Enqueued}

-- No channel of datagrams holds more than its capacity.
abbrev pub IsBounded : Broker → Type 0
IsBounded b = (r : ℕ) → length (b.outbox r).datagrams ≤ out_datagram_depth

with_outbox-IsBounded :
    (s : ℕ) (o : Outbox) (b : Broker)
    → length o.datagrams ≤ out_datagram_depth
    → IsBounded b
    → IsBounded (with_outbox s o b)
with_outbox-IsBounded s o b short h r = ground (arith, short, h r)

subscribe_outbox : (s : ℕ) (topic : Bytes) (b : Broker) → (subscribe s topic b).outbox ≡ b.outbox
unfolding subscribe
subscribe_outbox s topic b = ground arith

Step-IsBounded : {b c : Broker} → IsBounded b → Step b c → IsBounded c
unfolding send_datagram send_stream drop_oldest unsubscribe cleanup
Step-IsBounded {b} {c} h (Step.subscribing s topic runs e) = subst IsBounded (sym e) (λ r.
    subst (λ m. length (m r).datagrams ≤ out_datagram_depth) (sym (subscribe_outbox s topic b))
      (h r))
Step-IsBounded {b} {c} h (Step.unsubscribing s topic runs e) = subst IsBounded (sym e) h
Step-IsBounded {b} {c} h (Step.sends_datagram s frame o sent e) =
    let grown = length-append (b.outbox s).datagrams (frame ∷ []) in
    subst IsBounded (sym e) (with_outbox-IsBounded s o b (ground (arith, sent, grown)) h)
Step-IsBounded {b} {c} h (Step.sends_stream s frame o sent e) =
    subst IsBounded (sym e) (with_outbox-IsBounded s o b (ground (arith, sent, h s)) h)
Step-IsBounded {b} {c} h (Step.makes_room s e) =
    subst IsBounded (sym e)
      (with_outbox-IsBounded s _ b (omega (arith, h s, length-drop 1 (b.outbox s).datagrams)) h)
Step-IsBounded {b} {c} h (Step.write_datagram s frame rest first e) =
    subst IsBounded (sym e) (with_outbox-IsBounded s _ b (omega (arith, h s, ap length first)) h)
Step-IsBounded {b} {c} h (Step.write_stream s frame rest first e) =
    subst IsBounded (sym e) (with_outbox-IsBounded s _ b (h s) h)
Step-IsBounded {b} {c} h (Step.ends s runs e) = subst IsBounded (sym e) h

Reach-IsBounded : {b c : Broker} → IsBounded b → Reach b c → IsBounded c
Reach-IsBounded h Reach.here = h
Reach-IsBounded h (Reach.next r st) = Step-IsBounded (Reach-IsBounded h r) st

pub new_broker-IsBounded :
    (metrics : Bool) {b : Broker} → Reach (new_broker metrics) b → IsBounded b
unfolding new_broker
new_broker-IsBounded metrics = Reach-IsBounded (λ r. omega arith)

-- A surface's channel takes a frame without a wait: always that of datagrams, where it is within its
-- capacity.
abbrev pub HasRoom : Surface → Outbox → Type 0
HasRoom surface_datagram o = length o.datagrams ≤ out_datagram_depth
HasRoom surface_stream o = length o.streams < out_stream_depth

module _ (done picks : ℕ → Bool) (frame : Frame) where
  enqueue_stream_returns :
      (s : ℕ) (b : Broker)
      → length (b.outbox s).streams < out_stream_depth
      → (c : Broker) × (enqueue_stream (alone done picks s) frame s b ≡ some c)
  unfolding enqueue_stream send_or_done send_stream
  enqueue_stream_returns s b h =
      let o = record (b.outbox s) { streams = (b.outbox s).streams ++ frame ∷ [] } in
      (
        if done s && picks s then b else with_outbox s o b,
        ground (arith, lt→ltb (length (b.outbox s).streams) out_stream_depth h),
      )

  enqueue_datagram_returns :
      (s : ℕ) (b : Broker)
      → length (b.outbox s).datagrams ≤ out_datagram_depth
      → (c : Broker) × (enqueue_datagram (alone done picks s) frame s b ≡ some c)
  unfolding enqueue_datagram sent_at_once make_room send_or_done send_datagram drop_oldest
  enqueue_datagram_returns s b h =
      let o = record (b.outbox s) { datagrams = (b.outbox s).datagrams ++ frame ∷ [] } in
      let p = record (b.outbox s) { datagrams = drop 1 (b.outbox s).datagrams } in
      let q = record p { datagrams = p.datagrams ++ frame ∷ [] } in
      let d = with_outbox s p b in
      elim (Bool-cases (ltb (length (b.outbox s).datagrams) out_datagram_depth)) [
        | inl room ↦ (with_outbox s o b, ground (arith, room))
        | inr full ↦
            let short : length p.datagrams < out_datagram_depth =
              omega (arith, h, length-drop 1 (b.outbox s).datagrams) in
            let room = lt→ltb (length p.datagrams) out_datagram_depth short in
            (
              if done s && picks s then d else with_outbox s q d,
              rw (full, set_outbox_here b.outbox s p) (ground (arith, room)),
            )
      ]

  enqueue_on_returns :
      (surface : Surface) (s : ℕ) (b : Broker)
      → HasRoom surface (b.outbox s)
      → (c : Broker) × (enqueue_on (alone done picks s) surface frame s b ≡ some c)
  unfolding enqueue_on
  enqueue_on_returns surface_datagram s b h = enqueue_datagram_returns s b h
  enqueue_on_returns surface_stream s b h = enqueue_stream_returns s b h

  deliver_all_returns :
      (surface : Surface) (xs : List ℕ) (b : Broker)
      → Distinct xs
      → ((r : ℕ) → is_member r xs ≡ true → HasRoom surface (b.outbox r))
      → (c : Broker) × (deliver_all (alone done picks) surface frame xs b ≡ some c)
  unfolding deliver_all is_member
  deliver_all_returns surface [] b d room = (b, refl)
  deliver_all_returns surface (s ∷ rest) b d room =
      let (m, went) = enqueue_on_returns surface s b (room s (ground arith)) in
      let first = enqueue_on-Enqueued done picks frame surface s b m went in
      let (c, sent) = deliver_all_returns surface rest m d.1 (λ r member.
        let other : (s == r) ≡ false = elim (Bool-cases (s == r)) [
          | inl same ↦ let e = (==_iff s r).0 same in absurd (ground (arith, e, d.0, member))
          | inr miss ↦ miss
        ] in
        subst (HasRoom surface) (sym (first.others r other)) (room r (ground (arith, member)))) in
      (c, rw (went, deliver_all) sent)

  -- Where each subscriber's channel has room, `Publish` returns.
  pub publish_returns :
      (surface : Surface) (b : Broker)
      → Distinct (members b frame.topic)
      → ((r : ℕ) → is_member r (members b frame.topic) ≡ true → HasRoom surface (b.outbox r))
      → (c : Broker) × (publish (alone done picks) frame surface b ≡ some c)
  unfolding publish
  publish_returns surface b d room = deliver_all_returns surface (members b frame.topic) b d room
