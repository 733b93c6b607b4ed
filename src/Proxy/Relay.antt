-- ===== src/Proxy/Relay.antt =====
-- internal/proxy/proxy.go: the way of a packet through a session. To the server, `enqueueIncoming`, `acceptLoop`
-- and `toServerLoop`; to the client, `returnReadLoop` and `toClientLoop`. The steps of the goroutines interleave
-- as they may. `touch` stands in Proxy.antt.
pub mod Order
mod Tests
use quixiot.Prelude.{
  ℕ, suc, ◌+◌, ◌<◌, ◌≤◌, ◌≡◌, Bool, true, false, List, [], ◌∷◌, ◌++◌, Bytes, Option, none, some,
  length, ltb, if◌then◌else◌,
}
use quixiot.Impair.Pipeline.{Pipeline}
use quixiot.Loops.{
  LoopState, LoopEvent, session_done, input, timer_fires, Round, flush_ready, apply_round,
  start_loop,
}
use quixiot.Loops.Passthrough.{time_of}
use quixiot.Proxy.{queue_depth}

-- One direction, to the server or to the client: the packets that came so far, the channel `incoming` (of the direction to the server), the packet
-- that its reading goroutine has in hand, the channel to the loop, the loop, and the clock at its last input.
pub record Relay : Type 0 where
  pub to_server : Bool
  pub came : List Bytes
  pub incoming : List Bytes
  pub hand : Option Bytes
  pub channel : List Bytes
  pub loop : LoopState
  pub clock : ℕ

pub start_relay : Bool → Pipeline → Relay
start_relay to_server p = record {
  to_server = to_server;
  came = [];
  incoming = [];
  hand = none;
  channel = [];
  loop = start_loop p;
  clock = 0;
}

-- `enqueueIncoming`, of a session that is open; `none` is `errSessionQueueFull`.
pub arrive : Bytes → Relay → Option Relay
arrive packet r =
    if ltb (length r.incoming) queue_depth
    then some (record r { came = r.came ++ packet ∷ []; incoming = r.incoming ++ packet ∷ [] })
    else none

-- The first receive of `acceptLoop`; `none` is a wait, here and below.
taken_up : List Bytes → Option Bytes → Relay → Option Relay
taken_up (packet ∷ rest) none r = some (record r { incoming = rest; hand = some packet })
taken_up _ _ r = none

pub accept : Relay → Option Relay
unfolding taken_up
accept r = taken_up r.incoming r.hand r

-- The read of `returnReadLoop`.
read_up : Bytes → Option Bytes → Relay → Option Relay
read_up packet none r = some (record r { came = r.came ++ packet ∷ []; hand = some packet })
read_up packet (some _) r = none

pub read_upstream : Bytes → Relay → Option Relay
unfolding read_up
read_upstream packet r = read_up packet r.hand r

-- The send of both to the channel of the loop.
passed : Option Bytes → Relay → Option Relay
passed none r = none
passed (some packet) r =
    if ltb (length r.channel) queue_depth
    then some (record r { hand = none; channel = r.channel ++ packet ∷ [] })
    else none

pub pass_on : Relay → Option Relay
unfolding passed
pass_on r = passed r.hand r

-- What the event of a round leaves in the channel.
pub left_by : LoopEvent → List Bytes → List Bytes
left_by (input now packet) (first ∷ rest) = rest
left_by _ channel = channel

-- A round of `applyLoop`, with the writes that fail. Its event is handled where its flush goes well.
pub relay_round : (ℕ → Bool) → Round → Relay → Relay
unfolding left_by
relay_round fails e r =
    let t = flush_ready fails e.flush_at r.loop in
    record r {
      channel = if t.running then left_by e.event r.channel else r.channel;
      loop = apply_round fails e r.loop;
      clock = time_of e.event;
    }

-- The packet of an input is the first of the channel.
abbrev pub Offers : LoopEvent → List Bytes → Type 0
Offers (input now packet) channel = (rest : List Bytes) × (channel ≡ packet ∷ rest)
Offers (session_done now after) channel = Unit
Offers timer_fires channel = Unit

-- A step of one of the goroutines, where no write fails. The clock at a flush is not behind that of the input
-- before.
pub data Step (r : Relay) : Relay → Type 0 where
  arrives : {s : Relay} (packet : Bytes) → r.to_server ≡ true → arrive packet r ≡ some s → Step r s
  accepts : {s : Relay} → r.to_server ≡ true → accept r ≡ some s → Step r s
  reads :
      {s : Relay} (packet : Bytes)
      → r.to_server ≡ false
      → read_upstream packet r ≡ some s
      → Step r s
  passes_on : {s : Relay} → pass_on r ≡ some s → Step r s
  rounds :
      (e : Round)
      → r.loop.running ≡ true
      → r.clock ≤ e.flush_at
      → Offers e.event r.channel
      → Step r (relay_round (λ _. false) e r)

pub data Reach (r : Relay) : Relay → Type 0 where
  here : Reach r r
  next : {s t : Relay} → Reach r s → Step s t → Reach r t
