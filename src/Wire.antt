-- ===== src/Wire.antt =====
-- internal/wire/frame.go: the pubsub frame, alone in a datagram and behind a length on a stream.
-- quicvarint (of quic-go) is the parameter `Varint`. A stream is the bytes that its peer sends
-- before it ends, with the error that the reader then gets.
pub mod RoundTrip
pub mod Sound
pub mod Streaming
pub mod Tests
use quixiot.Prelude.{
  ℕ, ◌+◌, ◌-◌, ◌<◌, ◌^◌, ◌≤◌, ◌≡◌, Bool, true, false, not, List, [], ◌∷◌, ◌++◌, Option, none, some,
  Bytes, length, is_empty, get_or, take, drop, leb, ◌==◌, Result, ok, err, ◌>>=◌, ◌>>◌, guard,
  or_fail, if◌then◌else◌,
}

-- What the code relies on of quicvarint (RFC 9000, section 16): `Append` adds the code of a
-- number below 2^62, and `Parse` reads that code back, whatever follows, with the bytes it took.
pub record Varint : Type 0 where
  pub append : Bytes → ℕ → Bytes
  pub parse : Bytes → Option (ℕ × ℕ)
  pub append_onto : (out : Bytes) (n : ℕ) → append out n ≡ out ++ append [] n
  pub parse-append :
      (n : ℕ) (rest : Bytes)
      → n < 2 ^ 62
      → parse (append [] n ++ rest) ≡ some (n, length (append [] n))
  pub parse_bounds :
      (b : Bytes) (n k : ℕ) → parse b ≡ some (n, k) → (n < 2 ^ 62) × (0 < k) × (k ≤ length b)

-- `Kind` is a uint8, `Topic` a string of bytes.
pub record Frame : Type 0 where
  pub kind : ℕ
  pub topic : Bytes
  pub payload : Bytes

abbrev pub kind_pub : ℕ
kind_pub = 1

abbrev pub kind_sub : ℕ
kind_sub = 2

abbrev pub kind_unsub : ℕ
kind_unsub = 3

abbrev pub kind_pub_ack : ℕ
kind_pub_ack = 4

abbrev pub kind_err : ℕ
kind_err = 5

-- How a stream ends: closed by its peer, by the context, or by a failure.
pub data Ending : Type 0 where
  closed canceled failed : Ending

-- `unexpected_eof` and `read_body` are the two forms that `io.ReadFull` gives an error.
pub data WireError : Type 0 where
  kind_required topic_required short_frame invalid_kind bad_topic_length topic_overrun : WireError
  read_header read_body : Ending → WireError
  unexpected_eof : WireError

unfoldable pub encode : Varint → Frame → Result WireError Bytes
encode v frame = do
  guard (not (frame.kind == 0)) kind_required
  guard (not (is_empty frame.topic)) topic_required
  ok ((v.append (frame.kind ∷ []) (length frame.topic) ++ frame.topic) ++ frame.payload)

-- `data[end:]` behind the checks on the topic, the slice `data[start:end]`.
decode_rest : ℕ → Bytes → ℕ → ℕ → Result WireError Frame
decode_rest kind bytes start stop = do
  guard (leb stop (length bytes)) topic_overrun
  let topic = take (stop - start) (drop start bytes)
  guard (not (is_empty topic)) topic_required
  ok (record { kind = kind; topic = topic; payload = drop stop bytes })

-- `int(topicLen)` keeps its value, which is below 2^62.
unfoldable pub decode : Varint → Bytes → Result WireError Frame
unfolding decode_rest
decode v bytes = do
  guard (leb 2 (length bytes)) short_frame
  let kind = get_or bytes 0 0
  guard (not (kind == 0)) invalid_kind
  parsed ← or_fail (v.parse (drop 1 bytes)) bad_topic_length
  let start = 1 + parsed.1
  decode_rest kind bytes start (start + parsed.0)

-- The bytes that `WriteStreamFrame` writes to a writer that takes them all.
unfoldable pub write_stream_frame : Varint → Frame → Result WireError Bytes
write_stream_frame v frame = do bytes ← encode v frame; ok (v.append [] (length bytes) ++ bytes)

pub record Stream : Type 0 where
  pub bytes : Bytes
  pub ending : Ending

-- `io.ReadFull` into a buffer that could be allocated: `size` bytes, or the reader's error. A peer that closes after some of the bytes
-- gives `io.ErrUnexpectedEOF`, and before the first of them `io.EOF`.
short_read : Bool → Ending → WireError
short_read true e = read_body e
short_read false closed = unexpected_eof
short_read false e = read_body e

read_full : ℕ → Stream → Result WireError (Bytes × Stream)
unfolding short_read
read_full size s =
    if leb size (length s.bytes)
    then ok (take size s.bytes, record s { bytes = drop size s.bytes })
    else err (short_read (is_empty s.bytes) s.ending)

-- `quicvarint.Read` takes the bytes that `Parse` takes; where they end too early, it returns the
-- reader's error.
unfoldable pub read_stream_frame : Varint → Stream → Result WireError (Frame × Stream)
unfolding read_full
read_stream_frame v s = do
  header ← or_fail (v.parse s.bytes) (read_header s.ending)
  body ← read_full header.0 (record s { bytes = drop header.1 s.bytes })
  frame ← decode v body.0
  ok (frame, body.1)
