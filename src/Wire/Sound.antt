-- ===== src/Wire/Sound.antt =====
-- What `Decode` accepts, and that it can be sent on.
use quixiot.Prelude.{
  ℕ, ◌+◌, ◌-◌, ◌<◌, ◌≤◌, ◌^◌, ◌≡◌, ◌≢◌, inl, inr, Bytes, arith, length, drop, get_or, ◌==◌,
  Bool-cases, ok, Option-cases, length-take, length-drop,
}
use quixiot.Wire.{Varint, Frame, encode, decode, decode_rest}
use quixiot.Wire.RoundTrip.{IsSendable, body, encode-eq-body, decode-encode}

-- The slices of an accepted frame.
decode_rest_sound :
    (k : ℕ) (bytes : Bytes) (start n : ℕ) {f : Frame}
    → k ≢ 0
    → n < 2 ^ 62
    → decode_rest k bytes start (start + n) ≡ ok f
    → IsSendable f × (start + length f.topic + length f.payload ≤ length bytes)
unfolding decode_rest
decode_rest_sound k bytes start n set short e = ground (
  arith,
  length-take (start + n - start) (drop start bytes),
  length-drop start bytes,
  length-drop (start + n) bytes,
)

decode_sound :
    (v : Varint) (b : Bytes) {f : Frame}
    → decode v b ≡ ok f
    → IsSendable f × (2 + length f.topic + length f.payload ≤ length b)
unfolding decode
decode_sound v b {f} e = elim (Option-cases (v.parse (drop 1 b))) [
  | inl failed ↦ absurd (ground (arith, failed))
  | inr ((n, k), parsed) ↦
      let bounds = v.parse_bounds (drop 1 b) n k parsed in
      let kind = get_or b 0 0 in
      elim (Bool-cases (kind == 0)) [
        | inl zero_kind ↦ absurd (ground arith)
        | inr set ↦ ground (arith, parsed, bounds, decode_rest_sound kind b (1 + k) n {f = f})
      ]
]

-- A frame that `Decode` returns has a kind, and a topic that is not empty and fits a QUIC varint;
-- with two bytes at least for kind and length it lies within the bytes given; and `Encode` accepts
-- it and gives bytes that decode to the same frame.
pub decode-resend :
    (v : Varint) (b : Bytes) {f : Frame}
    → decode v b ≡ ok f
    → IsSendable f
      × (2 + length f.topic + length f.payload ≤ length b)
      × ((c : Bytes) × (encode v f ≡ ok c) × (decode v c ≡ ok f))
decode-resend v b {f} e =
    let (sendable, fits) = decode_sound v b e in
    let sent = encode-eq-body v f sendable in
    (sendable, fits, (body v f, sent, decode-encode v f sendable.topic_short sent))
