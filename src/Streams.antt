-- ===== src/Streams.antt =====
-- The way of control calls and of publications on streams: `writeControl` and `readUniStream` of
-- internal/client/pubsub.go, and `serve`, `readControl` and a round of `streamWriter` of
-- internal/broker/session.go. A stream is the bytes written to it and how it ends.
pub mod Control
pub mod Path
mod Tests
use quixiot.Prelude.{
  ℕ, zero, suc, Bool, true, false, not, List, [], ◌∷◌, ◌++◌, Bytes, Option, none, some, length,
  take, if◌then◌else◌, Result, ok, err,
}
use quixiot.Wire.{
  Varint, Frame, WireError, Stream, kind_pub, kind_sub, kind_unsub, write_stream_frame,
  read_stream_frame,
}
use quixiot.Broker.{Broker, Outbox, Turns, surface_stream, with_outbox, control_frame, cleanup}
use quixiot.Datagrams.{Message, deliver}

-- `Subscribe`, `Unsubscribe` and `PublishStream`
pub data ControlCall : Type 0 where
  subscribes unsubscribes : Bytes → ControlCall
  publishes : Bytes → Bytes → ControlCall

abbrev pub call_frame : ControlCall → Frame
call_frame (subscribes topic) = record { kind = kind_sub; topic = topic; payload = [] }
call_frame (unsubscribes topic) = record { kind = kind_unsub; topic = topic; payload = [] }
call_frame (publishes topic payload) = record { kind = kind_pub; topic = topic; payload = payload }

pub data ControlError : Type 0 where
  context_done no_deadline write_failed : ControlError
  bad_control_frame : WireError → ControlError

-- If the context is done, if the deadline can be set, and after how many bytes a write fails, if one
-- does.
pub record WriteAnswers : Type 0 where
  pub context_done : Bool
  pub deadline_set : Bool
  pub fails_at : Option ℕ

put_frame : Option ℕ → Bytes → Result WireError Bytes → Bytes × Result ControlError (Unit {0})
put_frame fails_at out (err e) = (out, err (bad_control_frame e))
put_frame none out (ok frame) = (out ++ frame, ok tt)
put_frame (some n) out (ok frame) = (out ++ take n frame, err write_failed)

-- `writeControl`, on the bytes written before: those that it leaves, and its error.
pub write_control :
    Varint → WriteAnswers → ControlCall → Bytes → Bytes × Result ControlError (Unit {0})
unfolding put_frame
write_control v a call out =
    if a.context_done
    then (out, err context_done)
    else if not a.deadline_set
    then (out, err no_deadline)
    else put_frame a.fails_at out (write_stream_frame v (call_frame call))

-- The loop of `readControl`, to the stream's end or its first error; `none` where a publication blocks.
-- `t` gives the turns of each round's publication. Each frame takes a byte at least, so the bytes bound the rounds.
control_loop : Varint → (ℕ → Turns) → ℕ → ℕ → ℕ → Stream → Broker → Option Broker
control_loop v t n zero s str b = some b
control_loop v t n (suc fuel) s str b = elim (read_stream_frame v str) [
  | err e ↦ some b
  | ok (frame, rest) ↦ elim (control_frame (t n) s frame b) [
    | none ↦ none
    | some c ↦ control_loop v t (suc n) fuel s rest c
  ]
]

pub read_control : Varint → (ℕ → Turns) → ℕ → Stream → Broker → Option Broker
unfolding control_loop
read_control v t s str b = control_loop v t 0 (suc (length str.bytes)) s str b

-- `serve`: the control stream, if it was accepted, and the deferred `cleanup`.
pub serve : Varint → (ℕ → Turns) → Bool → ℕ → Stream → Broker → Option Broker
unfolding read_control
serve v t accepted s str b = elim (if accepted then read_control v t s str b else some b) [
  | none ↦ none
  | some c ↦ some (cleanup s c)
]

-- A round of `streamWriter`: the broker behind it, the bytes of the stream that it opened and closed, if
-- it did, and if the writer goes on.
pub record WriterRound : Type 0 where
  pub broker : Broker
  pub stream : Option Bytes
  pub goes_on : Bool

written_on : Option ℕ → Result WireError Bytes → Bytes
written_on fails_at (err e) = []
written_on none (ok frame) = frame
written_on (some n) (ok frame) = take n frame

-- `none` where no frame waits. `opens` is the answer of `OpenUniStreamSync`.
pub stream_writer : Varint → Bool → Option ℕ → ℕ → Broker → Option WriterRound
unfolding written_on
stream_writer v opens fails_at s b = elim (b.outbox s).streams [
  | [] ↦ none
  | frame ∷ rest ↦
      let c = with_outbox s (record { datagrams = (b.outbox s).datagrams; streams = rest }) b in
      some (
        if opens
        then record {
          broker = c;
          stream = some (written_on fails_at (write_stream_frame v frame));
          goes_on = true;
        }
        else record { broker = c; stream = none; goes_on = false })
]

-- `readUniStream`; `none` where `incoming` is full.
uni_loop : Varint → ℕ → Stream → List Message → Option (List Message)
uni_loop v zero str incoming = some incoming
uni_loop v (suc fuel) str incoming = elim (read_stream_frame v str) [
  | err e ↦ some incoming
  | ok (frame, rest) ↦ elim (deliver frame surface_stream incoming) [
    | none ↦ none
    | some more ↦ uni_loop v fuel rest more
  ]
]

pub read_uni_stream : Varint → Stream → List Message → Option (List Message)
unfolding uni_loop
read_uni_stream v str incoming = uni_loop v (suc (length str.bytes)) str incoming
