-- ===== src/Datagrams.antt =====
-- The way of a publication in datagrams: `PublishDatagram`, `readDatagrams` and `deliver` of
-- internal/client/pubsub.go, and one round each of `datagramReader` and `datagramWriter` of
-- internal/broker/session.go. Sending and receiving a datagram are calls of WebTransport: here, its bytes.
pub mod Path
mod Tests
use quixiot.Prelude.{
  ℕ, Bool, true, false, not, List, [], ◌∷◌, ◌++◌, Bytes, Option, none, some, length, ltb, leb, ◌==◌,
  if◌then◌else◌, Result, ok, err, guard, ◌>>=◌, ◌>>◌,
}
use quixiot.Wire.{Varint, Frame, WireError, kind_pub, encode, decode}
use quixiot.Broker.{Broker, Turns, Surface, surface_datagram, publish}

-- `maxDatagramLen` of the client
abbrev pub max_datagram_len : ℕ
max_datagram_len = 1024

-- `maxDatagramBytes` of the broker
abbrev pub max_datagram_bytes : ℕ
max_datagram_bytes = 1024

-- The capacity of `incoming`.
abbrev pub incoming_depth : ℕ
incoming_depth = 256

pub data SendError : Type 0 where
  bad_frame : WireError → SendError
  frame_too_large send_failed : SendError

as_send_error : Result WireError Bytes → Result SendError Bytes
as_send_error (ok b) = ok b
as_send_error (err e) = err (bad_frame e)

-- The bytes that are sent; `sends` is the answer of `SendDatagram`.
pub publish_datagram : Varint → Bool → Bytes → Bytes → Result SendError Bytes
unfolding as_send_error
publish_datagram v sends topic payload = do
  data_bytes ←
      as_send_error (encode v (record { kind = kind_pub; topic = topic; payload = payload }))
  guard (leb (length data_bytes) max_datagram_len) frame_too_large
  guard sends send_failed
  ok data_bytes

-- Behind `Decode`.
publish_decoded : Turns → Result WireError Frame → Broker → Option Broker
publish_decoded t (err e) b = some b
publish_decoded t (ok frame) b =
    if frame.kind == kind_pub then publish t frame surface_datagram b else some b

-- A round of `datagramReader`, on a datagram that came in.
pub datagram_reader : Varint → Turns → Bytes → Broker → Option Broker
unfolding publish_decoded
datagram_reader v t data_bytes b =
    if ltb max_datagram_bytes (length data_bytes)
    then some b
    else publish_decoded t (decode v data_bytes) b

encoded_out : Result WireError Bytes → Option Bytes
encoded_out (err e) = none
encoded_out (ok b) = if ltb max_datagram_bytes (length b) then none else some b

-- A round of `datagramWriter`, on a frame from the channel: the datagram to send, if any.
pub datagram_writer : Varint → Frame → Option Bytes
unfolding encoded_out
datagram_writer v frame = encoded_out (encode v frame)

-- `PubSubMessage`
pub record Message : Type 0 where
  pub topic : Bytes
  pub payload : Bytes
  pub surface : Surface

-- `deliver`: `none` where `incoming` is full, and the call waits for the application.
unfoldable pub deliver : Frame → Surface → List Message → Option (List Message)
deliver frame surface incoming =
    if frame.kind == kind_pub
    then if ltb (length incoming) incoming_depth
      then some (
          incoming
          ++ (record { topic = frame.topic; payload = frame.payload; surface = surface }) ∷ [])
      else none
    else some incoming

deliver_decoded : Result WireError Frame → List Message → Option (List Message)
unfolding deliver
deliver_decoded (err e) incoming = some incoming
deliver_decoded (ok frame) incoming = deliver frame surface_datagram incoming

-- A round of `readDatagrams`.
pub read_datagram : Varint → Bytes → List Message → Option (List Message)
unfolding deliver_decoded
read_datagram v data_bytes incoming = deliver_decoded (decode v data_bytes) incoming
