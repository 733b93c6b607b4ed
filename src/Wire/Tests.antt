-- ===== src/Wire/Tests.antt =====
-- Runs of the wire functions, and the theorems at concrete frames.
use quixiot.Prelude.{
  ℕ, ◌+◌, ◌*◌, ◌/◌, ◌%◌, ◌<◌, ◌≤◌, ◌^◌, ◌≡◌, refl, [], ◌∷◌, ◌++◌, Bytes, Option, some, none, length,
  ltb, if◌then◌else◌, arith, ok, err, List,
}
use quixiot.Wire.{
  Varint, Frame, closed, topic_required, kind_required, unexpected_eof, topic_overrun, encode,
  decode, read_stream_frame,
}
use quixiot.Wire.RoundTrip.{decode-encode, IsSendable}
use quixiot.Wire.Streaming.{IsStreamable}

-- RFC 9000, section 16: the two top bits of the first byte give the length.
abbrev code : ℕ → Bytes
code n =
    if ltb n 64
    then n ∷ []
    else if ltb n 16384
    then (64 + n / 256) ∷ (n % 256) ∷ []
    else if ltb n 1073741824
    then (128 + n / 16777216) ∷ (n / 65536 % 256) ∷ (n / 256 % 256) ∷ (n % 256) ∷ []
    else (192 + n / 72057594037927936)
      ∷ (n / 281474976710656 % 256)
      ∷ (n / 1099511627776 % 256)
      ∷ (n / 4294967296 % 256)
      ∷ (n / 16777216 % 256)
      ∷ (n / 65536 % 256)
      ∷ (n / 256 % 256)
      ∷ (n % 256)
      ∷ []

-- A first byte below 256 always; other values are refused.
abbrev read_code : Bytes → Option (ℕ × ℕ)
read_code [] = none
read_code (a ∷ bs) =
    if ltb a 64
    then some (a, 1)
    else if ltb a 128
    then two bs
    else if ltb a 192
    then four bs
    else eight bs
  where
    two : Bytes → Option (ℕ × ℕ)
    two [] = none
    two (b ∷ _) = some ((a % 64) * 256 + b % 256, 2)

    four : Bytes → Option (ℕ × ℕ)
    four (b ∷ c ∷ d ∷ _) = some ((a % 64) * 16777216 + b % 256 * 65536 + c % 256 * 256 + d % 256, 4)
    four _ = none

    eight : Bytes → Option (ℕ × ℕ)
    eight (b ∷ c ∷ d ∷ e ∷ f ∷ g ∷ h ∷ _) = some (
      (a % 64) * 72057594037927936
          + b % 256 * 281474976710656
          + c % 256 * 1099511627776
          + d % 256 * 4294967296
          + e % 256 * 16777216
          + f % 256 * 65536
          + g % 256 * 256
          + h % 256,
      8,
    )
    eight _ = none

pub read_code-code :
    (n : ℕ) (rest : Bytes) → n < 2 ^ 62 → read_code (code n ++ rest) ≡ some (n, length (code n))
read_code-code n rest h = ground arith

pub read_code_bounds :
    (b : Bytes) (n k : ℕ) → read_code b ≡ some (n, k) → (n < 2 ^ 62) × (0 < k) × (k ≤ length b)
read_code_bounds [] n k e = ground arith
read_code_bounds (a ∷ []) n k e = ground arith
read_code_bounds (a ∷ b ∷ []) n k e = ground arith
read_code_bounds (a ∷ bs) n k e = ground arith

abbrev pub rfc9000 : Varint
rfc9000 = record {
  append = λ out n. out ++ code n;
  parse = read_code;
  append_onto = λ out n. refl;
  parse-append = read_code-code;
  parse_bounds = read_code_bounds;
}

abbrev reading : Frame
reading = record { kind = 1; topic = b't' ∷ b'/' ∷ b'1' ∷ []; payload = 7 ∷ 0 ∷ 9 ∷ [] }

abbrev joining : Frame
joining = record { kind = 2; topic = b't' ∷ []; payload = [] }

reading-IsSendable : IsSendable reading
reading-IsSendable = ground arith

encode-reading : encode rfc9000 reading ≡ ok (1 ∷ 3 ∷ b't' ∷ b'/' ∷ b'1' ∷ 7 ∷ 0 ∷ 9 ∷ [])
unfolding encode
encode-reading = refl

encode_errors :
    (encode rfc9000 (record reading { kind = 0 }) ≡ err kind_required)
    × (encode rfc9000 (record reading { topic = [] }) ≡ err topic_required)
    × (decode rfc9000 (1 ∷ 9 ∷ b't' ∷ []) ≡ err topic_overrun)
    × (decode rfc9000 (1 ∷ 0 ∷ b't' ∷ []) ≡ err topic_required)
unfolding encode decode
encode_errors = (refl, refl, refl, refl)

-- A peer that closes inside a frame's body.
read_cut_short :
    read_stream_frame rfc9000 (record { bytes = 5 ∷ 1 ∷ 3 ∷ []; ending = closed })
    ≡ err unexpected_eof
unfolding read_stream_frame
read_cut_short = refl

decode-encode_example : decode rfc9000 (1 ∷ 3 ∷ b't' ∷ b'/' ∷ b'1' ∷ 7 ∷ 0 ∷ 9 ∷ []) ≡ ok reading
decode-encode_example = decode-encode rfc9000 reading (omega arith) encode-reading

-- The topic's length is coded in two bytes, where one does.
decode_long_code :
    decode rfc9000 (1 ∷ 64 ∷ 1 ∷ b't' ∷ 5 ∷ [])
    ≡ ok (record { kind = 1; topic = b't' ∷ []; payload = 5 ∷ [] })
unfolding decode
decode_long_code = refl

reading-IsStreamable : IsStreamable rfc9000 reading
reading-IsStreamable = record { sendable = reading-IsSendable; body_short = omega arith }

joining-IsStreamable : IsStreamable rfc9000 joining
joining-IsStreamable = record { sendable = ground arith; body_short = omega arith }

abbrev session : List Frame
session = joining ∷ reading ∷ []
