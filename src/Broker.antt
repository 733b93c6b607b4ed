-- ===== src/Broker.antt =====
-- internal/broker/broker.go and the bookkeeping of internal/broker/session.go: which sessions are
-- subscribed to which topics, and the frames that wait for each session's writers.
-- A session is a number, its pointer. The mutexes make each step on the topics one critical section, or
-- several on data that one goroutine alone touches. `Publish` holds no lock while it fills the sessions'
-- channels, so what other goroutines do meanwhile is given to it, a `Turn` for each subscriber.
pub mod Members
pub mod Subscribers
pub mod Delivery
pub mod Room
pub mod Handlers
mod Tests
use quixiot.Prelude.{
  ℕ, suc, ◌+◌, ◌<◌, Bool, true, false, not, ◌&&◌, ◌||◌, List, [], ◌∷◌, ◌++◌, Bytes, Option, none,
  some, length, is_empty, drop, ltb, ◌==◌, if◌then◌else◌,
}
use quixiot.Prelude.Strings.{update}
use quixiot.Wire.{Frame, kind_pub, kind_sub, kind_unsub}

abbrev pub out_datagram_depth : ℕ
out_datagram_depth = 128

abbrev pub out_stream_depth : ℕ
out_stream_depth = 32

pub data Surface : Type 0 where
  surface_datagram surface_stream : Surface

-- The set of a topic's sessions, `map[*Session]struct{}`, as a list with no repetition.
pub is_member : ℕ → List ℕ → Bool
is_member s [] = false
is_member s (x ∷ xs) = x == s || is_member s xs

pub insert_member : ℕ → List ℕ → List ℕ
insert_member s xs = if is_member s xs then xs else s ∷ xs

pub remove_member : ℕ → List ℕ → List ℕ
remove_member s [] = []
remove_member s (x ∷ xs) = let rest = remove_member s xs in if x == s then rest else x ∷ rest

-- The channels to a session's writers, the oldest frame first.
pub record Outbox : Type 0 where
  pub datagrams : List Frame
  pub streams : List Frame

-- The broker with its sessions. `subs` are the sets that the sessions keep themselves, `closed` the
-- sessions that were cleaned up. The gauge of a topic's subscribers is `incs` less `decs`.
pub record Broker : Type 0 where
  pub metrics : Bool
  pub topics : Bytes → Option (List ℕ)
  pub incs : Bytes → ℕ
  pub decs : Bytes → ℕ
  pub subs : ℕ → Bytes → Bool
  pub closed : ℕ → Bool
  pub outbox : ℕ → Outbox

unfoldable pub new_broker : Bool → Broker
new_broker metrics = record {
  metrics = metrics;
  topics = λ _. none;
  incs = λ _. 0;
  decs = λ _. 0;
  subs = λ _ _. false;
  closed = λ _. false;
  outbox = λ _. record { datagrams = []; streams = [] };
}

-- `b.topics[topic]`, where a missing topic has no session.
abbrev pub members_of : Option (List ℕ) → List ℕ
members_of none = []
members_of (some xs) = xs

abbrev pub members : Broker → Bytes → List ℕ
members b topic = members_of (b.topics topic)

abbrev bump : Bool → (Bytes → ℕ) → Bytes → Bytes → ℕ
bump counts m topic j = if counts then update m topic (suc (m topic)) j else m j

-- `Broker.subscribe`
broker_subscribe : ℕ → Bytes → Broker → Broker
broker_subscribe s topic b = record b {
  topics = update b.topics topic (some (insert_member s (members b topic)));
  incs = bump b.metrics b.incs topic;
}

-- What is left of a topic without a session: an empty set is deleted.
pub without : ℕ → Option (List ℕ) → Option (List ℕ)
without s none = none
without s (some xs) = let rest = remove_member s xs in if is_empty rest then none else some rest

-- `Broker.unsubscribe`
broker_unsubscribe : ℕ → Bytes → Broker → Broker
broker_unsubscribe s topic b = record b {
  topics = update b.topics topic (without s (b.topics topic));
  decs = bump (is_member s (members b topic) && b.metrics) b.decs topic;
}

-- `Broker.removeSession`: the loop does this to each topic.
remove_session : ℕ → Broker → Broker
remove_session s b = record b {
  topics = λ topic. without s (b.topics topic);
  decs = λ topic.
      if is_member s (members b topic) && b.metrics then suc (b.decs topic) else b.decs topic;
}

abbrev set_sub : ℕ → Bytes → Bool → (ℕ → Bytes → Bool) → ℕ → Bytes → Bool
set_sub s topic v m r = if s == r then update (m r) topic v else m r

-- `Session.subscribe`
unfoldable pub subscribe : ℕ → Bytes → Broker → Broker
unfolding broker_subscribe
subscribe s topic b =
    if b.subs s topic
    then b
    else broker_subscribe s topic (record b { subs = set_sub s topic true b.subs })

-- `Session.unsubscribe`
pub unsubscribe : ℕ → Bytes → Broker → Broker
unfolding broker_unsubscribe
unsubscribe s topic b =
    broker_unsubscribe s topic (record b { subs = set_sub s topic false b.subs })

-- `Session.cleanup`, which ends `serve`.
pub cleanup : ℕ → Broker → Broker
unfolding remove_session
cleanup s b = remove_session s (record b { closed = λ r. if s == r then true else b.closed r })

-- What falls between the operations of a publisher on one subscriber's channels: what other goroutines
-- do before the first of them, between a failed send and the making of room, and from there to the send
-- that waits; if the session's context is done by then; and which case Go takes where both are ready.
pub record Turn : Type 0 where
  pub before : Broker → Broker
  pub before_drop : Broker → Broker
  pub before_send : Broker → Broker
  pub done : Bool
  pub picks_done : Bool

abbrev pub Turns : Type 0
Turns = ℕ → Turn

abbrev pub set_outbox : (ℕ → Outbox) → ℕ → Outbox → ℕ → Outbox
set_outbox m s o r = if s == r then o else m r

abbrev pub with_outbox : ℕ → Outbox → Broker → Broker
with_outbox s o b = record b { outbox = set_outbox b.outbox s o }

-- A send to a session's channel: `none` where it is full.
unfoldable pub send_datagram : Frame → Outbox → Option Outbox
send_datagram frame o =
    if ltb (length o.datagrams) out_datagram_depth
    then some (record o { datagrams = o.datagrams ++ frame ∷ [] })
    else none

unfoldable pub send_stream : Frame → Outbox → Option Outbox
send_stream frame o =
    if ltb (length o.streams) out_stream_depth
    then some (record o { streams = o.streams ++ frame ∷ [] })
    else none

-- The receive that makes room, where a frame is there.
unfoldable pub drop_oldest : Outbox → Outbox
drop_oldest o = record o { datagrams = drop 1 o.datagrams }

-- The select of a send with the session's context: `none` where neither is ready, and it blocks.
unfoldable pub send_or_done : Turn → Option Outbox → ℕ → Broker → Option Broker
send_or_done t none s b = if t.done then some b else none
send_or_done t (some o) s b = if t.done && t.picks_done then some b else some (with_outbox s o b)

-- The default case of `Session.enqueueDatagram`.
make_room : Turn → Frame → ℕ → Broker → Option Broker
make_room t frame s b =
    let c = t.before_drop b in
    let d = t.before_send (with_outbox s (drop_oldest (c.outbox s)) c) in
    send_or_done t (send_datagram frame (d.outbox s)) s d

sent_at_once : Turn → Frame → ℕ → Broker → Option Outbox → Option Broker
unfolding make_room
sent_at_once t frame s b none = make_room t frame s b
sent_at_once t frame s b (some o) = some (with_outbox s o b)

-- `Session.enqueueDatagram`
pub enqueue_datagram : Turn → Frame → ℕ → Broker → Option Broker
unfolding sent_at_once
enqueue_datagram t frame s b =
    let c = t.before b in sent_at_once t frame s c (send_datagram frame (c.outbox s))

-- `Session.enqueueStream`
pub enqueue_stream : Turn → Frame → ℕ → Broker → Option Broker
enqueue_stream t frame s b =
    let c = t.before b in send_or_done t (send_stream frame (c.outbox s)) s c

unfoldable pub enqueue_on : Turn → Surface → Frame → ℕ → Broker → Option Broker
unfolding enqueue_datagram enqueue_stream
enqueue_on t surface_datagram frame s b = enqueue_datagram t frame s b
enqueue_on t surface_stream frame s b = enqueue_stream t frame s b

-- The loop of `Publish` over the subscribers; `none` where it blocks.
unfoldable pub deliver_all : Turns → Surface → Frame → List ℕ → Broker → Option Broker
deliver_all t surface frame [] b = some b
deliver_all t surface frame (s ∷ rest) b = elim (enqueue_on (t s) surface frame s b) [
  | none ↦ none
  | some c ↦ deliver_all t surface frame rest c
]

-- `Publish`, with the subscribers that it reads at first.
pub publish : Turns → Frame → Surface → Broker → Option Broker
publish t frame surface b = deliver_all t surface frame (members b frame.topic) b

-- One round of `readControl`: the switch on the frame's kind.
unfoldable pub control_frame : Turns → ℕ → Frame → Broker → Option Broker
control_frame t s frame b =
    if frame.kind == kind_sub
    then some (subscribe s frame.topic b)
    else if frame.kind == kind_unsub
    then some (unsubscribe s frame.topic b)
    else if frame.kind == kind_pub
    then publish t frame surface_stream b
    else some b
