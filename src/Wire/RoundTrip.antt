-- ===== src/Wire/RoundTrip.antt =====
-- Decoding what was encoded.
use quixiot.Prelude.{
  ℕ, suc, ◌+◌, ◌-◌, ◌<◌, ◌^◌, ◌≡◌, ◌≢◌, refl, ap, true, false, [], ◌∷◌, ◌++◌, Bytes, arith, length,
  length-append, drop, is_empty, leb, le→leb, ok, append_assoc, take-append, drop-append,
}
use quixiot.Wire.{Varint, Frame, encode, decode, decode_rest}

-- What the frame's fields must meet for `Encode` to accept it.
pub record IsSendable (f : Frame) : Type 0 where
  pub kind_set : f.kind ≢ 0
  pub topic_set : f.topic ≢ []
  pub topic_short : length f.topic < 2 ^ 62

abbrev pub body : Varint → Frame → Bytes
body v f = (v.append (f.kind ∷ []) (length f.topic) ++ f.topic) ++ f.payload

pub encode-eq-body : (v : Varint) (f : Frame) → IsSendable f → encode v f ≡ ok (body v f)
unfolding encode
encode-eq-body v f h = ground (arith, h.kind_set, h.topic_set)

pub encode_sound :
    (v : Varint) (f : Frame) {b : Bytes}
    → encode v f ≡ ok b
    → (f.kind ≢ 0) × (f.topic ≢ []) × (b ≡ body v f)
unfolding encode
encode_sound v f e = ground arith

-- The same bytes, with what stands behind the kind as one list.
pub body_lem :
    (v : Varint) (f : Frame)
    → body v f ≡ f.kind ∷ (v.append [] (length f.topic) ++ (f.topic ++ f.payload))
body_lem v f =
    rw (v.append_onto (f.kind ∷ []) (length f.topic))
      (ap (◌∷◌ f.kind) (append_assoc (v.append [] (length f.topic)) f.topic f.payload))

is_empty-of-ne : (t : Bytes) → t ≢ [] → is_empty t ≡ false
is_empty-of-ne [] h = absurd (h refl)
is_empty-of-ne (x ∷ t) h = refl

drop-append-append : (c t p : Bytes) → drop (length c + length t) (c ++ (t ++ p)) ≡ p
drop-append-append c t p = rw (← length-append c t, ← append_assoc c t p) (drop-append (c ++ t) p)

-- The slices that `Decode` takes, behind a length code `c`.
decode_rest-parts :
    (k : ℕ) (c t p : Bytes)
    → t ≢ []
    → decode_rest k (k ∷ (c ++ (t ++ p))) (1 + length c) (1 + length c + length t)
      ≡ ok (record { kind = k; topic = t; payload = p })
unfolding decode_rest
decode_rest-parts k c t p h =
    rw (one, two, three, four, drop-append c (t ++ p), take-append t p, drop-append-append c t p)
      (rw (is_empty-of-ne t h))
  where
    one : 1 + length c ≡ suc (length c)
    one = omega arith

    two : suc (length c) + length t ≡ suc (length c + length t)
    two = omega arith

    three : suc (length c + length t) - suc (length c) ≡ length t
    three = omega arith

    four : leb (suc (length c + length t)) (suc (length (c ++ (t ++ p)))) ≡ true
    four = le→leb _ _ (omega (arith, length-append c (t ++ p), length-append t p))

decode-parts :
    (v : Varint) (f : Frame)
    → IsSendable f
    → decode v (f.kind ∷ (v.append [] (length f.topic) ++ (f.topic ++ f.payload))) ≡ ok f
unfolding decode
decode-parts v f h =
    let c = v.append [] (length f.topic) in
    let parsed = v.parse-append (length f.topic) (f.topic ++ f.payload) h.topic_short in
    let bounds = v.parse_bounds _ _ _ parsed in
    ground (
      arith,
      parsed,
      bounds,
      h.kind_set,
      length-append c (f.topic ++ f.payload),
      length-append f.topic f.payload,
      decode_rest-parts f.kind c f.topic f.payload h.topic_set,
    )

-- A frame that `Encode` accepts comes back from `Decode` as it was, where its topic's length fits a
-- QUIC varint.
pub decode-encode :
    (v : Varint) (f : Frame) {b : Bytes}
    → length f.topic < 2 ^ 62
    → encode v f ≡ ok b
    → decode v b ≡ ok f
decode-encode v f short e =
    let (k, t, eq) = encode_sound v f e in
    rw (eq, body_lem v f)
      (decode-parts v f (record { kind_set = k; topic_set = t; topic_short = short }))
