-- ===== src/Wire/Streaming.antt =====
-- Frames behind their lengths: one frame, and the whole of a stream.
use quixiot.Prelude.{
  ℕ, zero, suc, ◌<◌, ◌^◌, ◌≡◌, inl, inr, List, [], ◌∷◌, ◌++◌, Bytes, some, none, arith, length,
  length-append, Option, drop, le→leb, ok, err, Option-cases, Result-cases, length-drop,
  append_assoc, take-append, drop-append, All,
}
use quixiot.Wire.{
  Varint, Frame, WireError, Stream, Ending, read_header, read_full, read_stream_frame,
  write_stream_frame,
}
use quixiot.Wire.RoundTrip.{IsSendable, body, encode-eq-body, decode-encode}

-- A frame that can be written to a stream: its bytes are counted by a QUIC varint too.
pub record IsStreamable (v : Varint) (f : Frame) : Type 0 where
  pub sendable : IsSendable f
  pub body_short : length (body v f) < 2 ^ 62

abbrev pub framed : Varint → Frame → Bytes
framed v f = v.append [] (length (body v f)) ++ body v f

pub write_stream_frame-eq-framed :
    (v : Varint) (f : Frame) → IsSendable f → write_stream_frame v f ≡ ok (framed v f)
unfolding write_stream_frame
write_stream_frame-eq-framed v f h = rw (encode-eq-body v f h)

-- What `WriteStreamFrame` wrote is read back by `ReadStreamFrame` as the same frame, whatever
-- follows on the stream, and just that is left to read.
pub read-write_stream_frame :
    (v : Varint) (f : Frame) (rest : Bytes) (e : Ending)
    → IsStreamable v f
    → read_stream_frame v (record { bytes = framed v f ++ rest; ending = e })
      ≡ ok (f, record { bytes = rest; ending = e })
unfolding read_stream_frame read_full
read-write_stream_frame v f rest e h =
    let b = body v f in
    let c = v.append [] (length b) in
    rw
      (
        append_assoc c b rest,
        v.parse-append (length b) (b ++ rest) h.body_short,
        drop-append c (b ++ rest),
      )
      (rw
        (
          le→leb (length b) (length (b ++ rest)) (omega (arith, length-append b rest)),
          take-append b rest,
          drop-append b rest,
        )
        (rw (decode-encode v f h.sendable.topic_short (encode-eq-body v f h.sendable))))

-- internal/client/pubsub.go, the loop of `readUniStream`: the frames up to the first error, and that
-- error. Each frame takes a byte at least, so the bytes bound the rounds.
unfoldable pub read_frames : Varint → ℕ → Stream → List Frame × Option WireError
read_frames v zero s = ([], none)
read_frames v (suc fuel) s = elim (read_stream_frame v s) [
  | err e ↦ ([], some e)
  | ok (f, rest) ↦ let more = read_frames v fuel rest in (f ∷ more.0, more.1)
]

abbrev pub written : Varint → List Frame → Bytes
written v [] = []
written v (f ∷ fs) = framed v f ++ written v fs

-- Every frame that is read takes bytes from the stream.
pub read_stream_frame_shrinks :
    (v : Varint) (s : Stream) {f : Frame} {rest : Stream}
    → read_stream_frame v s ≡ ok (f, rest)
    → (length rest.bytes < length s.bytes) × (rest.ending ≡ s.ending)
unfolding read_stream_frame read_full
read_stream_frame_shrinks v s e = elim (Option-cases (v.parse s.bytes)) [
  | inl failed ↦ absurd (ground (arith, failed))
  | inr ((n, k), parsed) ↦ ground (
    arith,
    parsed,
    v.parse_bounds s.bytes n k parsed,
    length-drop n (drop k s.bytes),
    length-drop k s.bytes,
  )
]

-- A loop that reads frames until an error ends with one, on any stream.
pub read_frames_ends :
    (v : Varint) (fuel : ℕ) (s : Stream)
    → length s.bytes < fuel
    → (e : WireError) × ((read_frames v fuel s).1 ≡ some e)
unfolding read_frames
read_frames_ends v zero s h = absurd (omega arith)
read_frames_ends v (suc fuel) s h = elim (Result-cases (read_stream_frame v s)) [
  | inl ((f, rest), e) ↦
      rw (e, read_frames)
        (read_frames_ends v fuel rest (omega (arith, (read_stream_frame_shrinks v s e).0)))
  | inr (e, failed) ↦ (e, rw (failed, read_frames))
]

-- There is no number in no bytes.
pub parse-nil : (v : Varint) → v.parse [] ≡ none
parse-nil v = elim (Option-cases (v.parse [])) [
  | inl e ↦ e
  | inr ((n, k), e) ↦ absurd (omega (arith, v.parse_bounds [] n k e))
]

-- The frames written to a stream are read from it, all and in order, and then the stream's end.
pub read-written :
    (v : Varint) (fs : List Frame) (fuel : ℕ) (e : Ending)
    → All (IsStreamable v) fs
    → length fs < fuel
    → read_frames v fuel (record { bytes = written v fs; ending = e }) ≡ (fs, some (read_header e))
unfolding read_frames
read-written v [] (suc fuel) e h enough =
    let failed : read_stream_frame v (record { bytes = []; ending = e }) ≡ err (read_header e) =
      unfold read_stream_frame in rw (parse-nil v) in
    rw (failed, read_frames)
read-written v (f ∷ fs) (suc fuel) e h enough =
    rw (read-write_stream_frame v f (written v fs) e h.0, read_frames)
      (rw (read-written v fs fuel e h.1 (omega arith)))
read-written v fs zero e h enough = elim enough [ ]
