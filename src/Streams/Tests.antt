-- ===== src/Streams/Tests.antt =====
-- A publication on a control stream at concrete inputs, and the theorems on it.
use quixiot.Prelude.{
  ◌≡◌, refl, true, false, List, [], ◌∷◌, some, none, ok, err, length, arith, All, length,
}
use quixiot.Prelude.Strings.{codes}
use quixiot.Wire.{closed, write_stream_frame, read_stream_frame, encode, decode}
use quixiot.Wire.Tests.{rfc9000}
use quixiot.Wire.Streaming.{IsStreamable}
use quixiot.Broker.{Broker, Turns, new_broker, subscribe, control_frame}
use quixiot.Broker.Delivery.{alone}
use quixiot.Datagrams.Path.{publication}
use quixiot.Streams.{
  WriteAnswers, ControlCall, subscribes, publishes, call_frame, write_control, write_failed,
  read_control,
}
use quixiot.Streams.Control.{send_calls, perform_all, read_control-send_calls}

abbrev quiet : Turns
quiet = alone (λ _. false) (λ _. false)

abbrev joined : Broker
joined = subscribe 4 (codes "t") (new_broker true)

frame_fits : IsStreamable rfc9000 (publication (codes "t") (7 ∷ []))
frame_fits = record { sendable = ground arith; body_short = omega arith }

join_fits : IsStreamable rfc9000 (call_frame (subscribes (codes "t")))
join_fits = record { sendable = ground arith; body_short = omega arith }

abbrev waiting : Broker
waiting = record joined {
  outbox = λ r. record { datagrams = []; streams = publication (codes "t") (7 ∷ []) ∷ [] };
}

abbrev calls : List ControlCall
calls = subscribes (codes "t") ∷ publishes (codes "t") (7 ∷ []) ∷ []

read_control-send_calls_example :
    let (bytes, results) = send_calls rfc9000 calls [] in
    All (λ r. r ≡ ok tt) results
    × (read_control rfc9000
          (λ _. quiet)
          9
          (record { bytes = bytes; ending = closed })
          (new_broker true)
        ≡ perform_all (λ _. quiet) 0 9 calls (new_broker true))
read_control-send_calls_example =
    read_control-send_calls rfc9000 (λ _. quiet) 9 calls closed (new_broker true)
      (join_fits, (frame_fits, tt))

-- A write that fails leaves a part of its frame on the stream, and the next call writes behind it.
torn_run :
    let well : WriteAnswers = record {
      context_done = false;
      deadline_set = true;
      fails_at = none;
    } in
    let torn : WriteAnswers = record {
      context_done = false;
      deadline_set = true;
      fails_at = some 2;
    } in
    let (bytes, result) = write_control rfc9000 torn (publishes (codes "t") (7 ∷ [])) [] in
    let (after, again) = write_control rfc9000 well (subscribes (codes "u")) bytes in
    (result ≡ err write_failed)
    × (again ≡ ok tt)
    × (read_control rfc9000
          (λ _. quiet)
          9
          (record { bytes = after; ending = closed })
          (new_broker true)
        ≡ some (new_broker true))
unfolding write_control write_stream_frame encode read_control read_stream_frame decode
    control_frame
torn_run = (refl, refl, refl)
