-- ===== src/Broker/Handlers.antt =====
-- The handlers of the broker as runs of its steps.
use quixiot.Prelude.{
  ℕ, ◌≡◌, refl, sym, subst, List, [], ◌∷◌, Option, none, some, ◌&&◌, arith, Bool-cases,
  Option-cases, inl, inr,
}
use quixiot.Wire.{Frame}
use quixiot.Broker.{
  Broker, Outbox, Surface, surface_datagram, surface_stream, Turn, Turns, members, with_outbox,
  send_datagram, drop_oldest, send_or_done, make_room, sent_at_once, enqueue_datagram,
  enqueue_stream, enqueue_on, deliver_all, publish,
}
use quixiot.Broker.Subscribers.{Step, sends_datagram, sends_stream, makes_room, Reach, here, next}

-- What other goroutines do during a turn are steps of the broker.
pub record IsRun (t : Turn) : Type 0 where
  pub before : (b : Broker) → Reach b (t.before b)
  pub before_drop : (b : Broker) → Reach b (t.before_drop b)
  pub before_send : (b : Broker) → Reach b (t.before_send b)

Reach-trans : {a b c : Broker} → Reach a b → Reach b c → Reach a c
Reach-trans r here = r
Reach-trans r (next q st) = next (Reach-trans r q) st

send_or_done-Reach :
    (t : Turn) (o : Option Outbox) (s : ℕ) (b c : Broker)
    → ((p : Outbox) → o ≡ some p → Step b (with_outbox s p b))
    → send_or_done t o s b ≡ some c
    → Reach b c
unfolding send_or_done
send_or_done-Reach t none s b c st e = subst (Reach b) {x = b} {y = c} (ground (arith, e)) here
send_or_done-Reach t (some p) s b c st e = elim (Bool-cases (t.done && t.picks_done)) [
  | inl over ↦ subst (Reach b) {x = b} {y = c} (ground (arith, e, over)) here
  | inr on ↦
      subst (Reach b) {x = with_outbox s p b} {y = c} (ground (arith, e, on))
        (next here (st p refl))
]

module _ (t : Turn) (runs : IsRun t) (frame : Frame) (s : ℕ) where
  make_room-Reach : (b c : Broker) → make_room t frame s b ≡ some c → Reach b c
  unfolding make_room
  make_room-Reach b c e =
      let m = t.before_drop b in
      let d = with_outbox s (drop_oldest (m.outbox s)) m in
      let sent =
        send_or_done-Reach t _ s (t.before_send d) c (λ p room. sends_datagram s frame p room refl)
          e in
      Reach-trans (next (runs.before_drop b) (makes_room s refl))
        (Reach-trans (runs.before_send d) sent)

  enqueue_datagram-Reach : (b c : Broker) → enqueue_datagram t frame s b ≡ some c → Reach b c
  unfolding enqueue_datagram sent_at_once
  enqueue_datagram-Reach b c e =
      let m = t.before b in
      elim (Option-cases (send_datagram frame (m.outbox s))) [
        | inl full ↦ Reach-trans (runs.before b) (make_room-Reach m c (rw full at e))
        | inr (o, room) ↦
            let sent : with_outbox s o m ≡ c = ground (arith, (rw room at e)) in
            next (runs.before b) (sends_datagram s frame o room (sym sent))
      ]

  enqueue_stream-Reach : (b c : Broker) → enqueue_stream t frame s b ≡ some c → Reach b c
  unfolding enqueue_stream
  enqueue_stream-Reach b c e =
      Reach-trans (runs.before b)
        (send_or_done-Reach t _ s (t.before b) c (λ p room. sends_stream s frame p room refl) e)

  enqueue_on-Reach :
      (surface : Surface) (b c : Broker) → enqueue_on t surface frame s b ≡ some c → Reach b c
  unfolding enqueue_on
  enqueue_on-Reach surface_datagram b c e = enqueue_datagram-Reach b c e
  enqueue_on-Reach surface_stream b c e = enqueue_stream-Reach b c e

module _ (t : Turns) (runs : (s : ℕ) → IsRun (t s)) (frame : Frame) where
  deliver_all-Reach :
      (surface : Surface) (xs : List ℕ) (b c : Broker)
      → deliver_all t surface frame xs b ≡ some c
      → Reach b c
  unfolding deliver_all
  deliver_all-Reach surface [] b c e = subst (Reach b) {x = b} {y = c} (ground (arith, e)) here
  deliver_all-Reach surface (s ∷ xs) b c e =
      elim (Option-cases (enqueue_on (t s) surface frame s b)) [
        | inl blocked ↦ absurd (ground (arith, e, blocked))
        | inr (m, went) ↦
            Reach-trans (enqueue_on-Reach (t s) (runs s) frame s surface b m went)
              (deliver_all-Reach surface xs m c (ground (arith, e, went)))
      ]

  pub publish-Reach :
      (surface : Surface) (b c : Broker) → publish t frame surface b ≡ some c → Reach b c
  unfolding publish
  publish-Reach surface b c e = deliver_all-Reach surface (members b frame.topic) b c e
