-- ===== src/Streams/Control.antt =====
-- The broker runs the calls of a client's control stream, all and in order.
use quixiot.Prelude.{
  ℕ, zero, suc, ◌<◌, ◌≤◌, ◌≡◌, refl, sym, ◌∙◌, true, false, List, [], ◌∷◌, ◌++◌, Bytes, Option,
  none, some, length, length-append, All, append-nil, append_assoc, Result, ok, err, arith, map,
  Option-cases, inl, inr,
}
use quixiot.Wire.{Varint, Frame, Ending, closed, read_header, read_stream_frame}
use quixiot.Wire.Streaming.{
  IsStreamable, framed, written, write_stream_frame-eq-framed, read-write_stream_frame,
  read_stream_frame_shrinks, parse-nil,
}
use quixiot.Broker.{Broker, Turns, surface_stream, subscribe, unsubscribe, publish, control_frame}
use quixiot.Streams.{
  ControlCall, subscribes, unsubscribes, publishes, call_frame, ControlError, WriteAnswers,
  write_control, put_frame, control_loop, read_control,
}

-- Every call of the transport succeeds.
abbrev pub all_well : WriteAnswers
all_well = record { context_done = false; deadline_set = true; fails_at = none }

-- The calls of a client, one behind the other: the bytes, and if each call succeeded.
pub send_calls : Varint → List ControlCall → Bytes → Bytes × List (Result ControlError (Unit {0}))
send_calls v [] out = (out, [])
send_calls v (call ∷ calls) out =
    let (more, result) = write_control v all_well call out in
    let (last, results) = send_calls v calls more in (last, result ∷ results)

-- What each call asks the broker for.
abbrev pub perform : Turns → ℕ → ControlCall → Broker → Option Broker
perform t s (subscribes topic) b = some (subscribe s topic b)
perform t s (unsubscribes topic) b = some (unsubscribe s topic b)
perform t s (publishes topic payload) b =
    publish t (call_frame (publishes topic payload)) surface_stream b

pub perform_all : (ℕ → Turns) → ℕ → ℕ → List ControlCall → Broker → Option Broker
perform_all t n s [] b = some b
perform_all t n s (call ∷ calls) b = elim (perform (t n) s call b) [
  | none ↦ none
  | some c ↦ perform_all t (suc n) s calls c
]

pub perform_all_one :
    (t : ℕ → Turns) (n s : ℕ) (call : ControlCall) (b c : Broker)
    → perform (t n) s call b ≡ some c
    → perform_all t n s (call ∷ []) b ≡ some c
unfolding perform_all
perform_all_one t n s call b c e = rw (e, perform_all) refl

pub control_frame-call_frame :
    (t : Turns) (s : ℕ) (call : ControlCall) (b : Broker)
    → control_frame t s (call_frame call) b ≡ perform t s call b
unfolding control_frame
control_frame-call_frame t s (subscribes topic) b = refl
control_frame-call_frame t s (unsubscribes topic) b = refl
control_frame-call_frame t s (publishes topic payload) b = refl

abbrev pub AllStreamable : Varint → List ControlCall → Type 0
AllStreamable v calls = All (λ c. IsStreamable v (call_frame c)) calls

module _ (v : Varint) where
  pub write_control_well :
      (call : ControlCall) (out : Bytes)
      → IsStreamable v (call_frame call)
      → write_control v all_well call out ≡ (out ++ framed v (call_frame call), ok tt)
  unfolding write_control put_frame
  write_control_well call out h = rw (write_stream_frame-eq-framed v (call_frame call) h.sendable)

  send_calls-written :
      (calls : List ControlCall) (out : Bytes)
      → AllStreamable v calls
      → (send_calls v calls out).0 ≡ out ++ written v (map call_frame calls)
  unfolding send_calls
  send_calls-written [] out h = sym (append-nil out)
  send_calls-written (call ∷ calls) out h =
      let now = write_control_well call out h.0 in
      rw now (
        send_calls-written calls (out ++ framed v (call_frame call)) h.1
        ∙ append_assoc out (framed v (call_frame call)) (written v (map call_frame calls)))

  send_calls_succeed :
      (calls : List ControlCall) (out : Bytes)
      → AllStreamable v calls
      → All (λ r. r ≡ ok tt) (send_calls v calls out).1
  unfolding send_calls
  send_calls_succeed [] out h = tt
  send_calls_succeed (call ∷ calls) out h =
      let now = write_control_well call out h.0 in
      rw now (refl, send_calls_succeed calls (out ++ framed v (call_frame call)) h.1)

  -- A frame takes a byte at least.
  pub framed_some : (f : Frame) → IsStreamable v f → 0 < length (framed v f)
  framed_some f h =
      let read = read-write_stream_frame v f [] closed h in
      let less =
        read_stream_frame_shrinks v (record { bytes = framed v f ++ []; ending = closed }) read in
      omega (arith, less.0, length-append (framed v f) [])

  written_length :
      (calls : List ControlCall)
      → AllStreamable v calls
      → length calls ≤ length (written v (map call_frame calls))
  written_length [] h = omega arith
  written_length (call ∷ calls) h = omega (
    arith,
    framed_some (call_frame call) h.0,
    written_length calls h.1,
    length-append (framed v (call_frame call)) (written v (map call_frame calls)),
  )

  pub read_end :
      (e : Ending) → read_stream_frame v (record { bytes = []; ending = e }) ≡ err (read_header e)
  unfolding read_stream_frame
  read_end e = rw (parse-nil v)

  control_loop-written :
      (t : ℕ → Turns) (n s : ℕ) (calls : List ControlCall) (fuel : ℕ) (e : Ending) (b : Broker)
      → AllStreamable v calls
      → length calls < fuel
      → control_loop v t n fuel s
          (record { bytes = written v (map call_frame calls); ending = e })
          b
        ≡ perform_all t n s calls b
  unfolding control_loop perform_all
  control_loop-written t n s [] (suc fuel) e b h enough = rw (read_end e, control_loop)
  control_loop-written t n s (call ∷ calls) (suc fuel) e b h enough =
      let read =
        read-write_stream_frame v (call_frame call) (written v (map call_frame calls)) e h.0 in
      rw (read, control_loop)
        (rw (control_frame-call_frame (t n) s call b)
          (elim (Option-cases (perform (t n) s call b)) [
            | inl blocked ↦ rw (blocked, perform_all) refl
            | inr (c, done) ↦
                rw (done, perform_all)
                  (control_loop-written t (suc n) s calls fuel e c h.1 (omega arith))
          ]))
  control_loop-written t n s calls zero e b h enough = elim enough [ ]

  -- Calls whose frames fit a stream, made one behind the other on a control stream that takes them, all
  -- succeed, and the broker's reader carries each of them out, in order: a subscription, its end, or a
  -- publication, whatever other goroutines do meanwhile; it stops where a publication blocks, and ends with the stream.
  pub read_control-send_calls :
      (t : ℕ → Turns) (s : ℕ) (calls : List ControlCall) (e : Ending) (b : Broker)
      → All (λ c. IsStreamable v (call_frame c)) calls
      → let (bytes, results) = send_calls v calls [] in
        All (λ r. r ≡ ok tt) results
        × (read_control v t s (record { bytes = bytes; ending = e }) b ≡ perform_all t 0 s calls b)
  unfolding read_control
  read_control-send_calls t s calls e b h =
      let sent = send_calls-written calls [] h in
      (
        send_calls_succeed calls [] h,
        rw sent (
            control_loop-written t 0 s calls (suc (length (written v (map call_frame calls)))) e b h
              (omega (arith, written_length calls h))),
      )
