-- ===== src/Broker/Tests.antt =====
-- A short run of the broker, and the theorems on it.
use mathlib.Core.Option as Option
use quixiot.Prelude.{◌==◌, Bool, none, ◌++◌, ℕ, ◌≡◌, refl, true, false, [], ◌∷◌, some, replicate}
use quixiot.Prelude.Strings.{codes, same_bytes}
use quixiot.Wire.{Frame}
use quixiot.Broker.{
  Broker, Turns, surface_datagram, new_broker, members, is_member, insert_member, subscribe,
  cleanup, publish, deliver_all, enqueue_on, send_datagram, with_outbox, send_or_done, drop_oldest,
}
use quixiot.Broker.Members.{Distinct}
use quixiot.Broker.Subscribers.{
  IsTopicSound, subscribing, ends, Reach, here, next, broker_stays_sound,
}
use quixiot.Broker.Delivery.{alone, Got, publish_delivers}
use quixiot.Broker.Room.{publish_returns, new_broker-IsBounded}

abbrev join : Frame
join = record { kind = 2; topic = codes "t"; payload = [] }

abbrev news : Frame
news = record { kind = 1; topic = codes "t"; payload = 7 ∷ [] }

-- Sessions 4 and 9 subscribe to one topic, and session 4 ends.
joined : Broker
unfolding new_broker subscribe insert_member is_member
joined = subscribe 9 (codes "t") (subscribe 4 (codes "t") (new_broker true))

joined-only : Reach (new_broker true) joined
unfolding joined new_broker subscribe
joined-only =
    next (next here (subscribing 4 (codes "t") refl refl)) (subscribing 9 (codes "t") refl refl)

joined-Reach : Reach (new_broker true) (cleanup 4 joined)
unfolding joined new_broker subscribe
joined-Reach = next joined-only (ends 4 refl refl)

broker_stays_sound_example : IsTopicSound (cleanup 4 joined) (codes "t")
broker_stays_sound_example = broker_stays_sound true joined-Reach (codes "t")

members-joined : members joined (codes "t") ≡ 9 ∷ 4 ∷ []
unfolding joined same_bytes
members-joined = refl

joined-Distinct : Distinct (members joined (codes "t"))
unfolding joined same_bytes is_member
joined-Distinct = (refl, (refl, tt))

-- What `Publish` makes of it, where the context of session 4 is done and its channel still takes frames.
abbrev ended : ℕ → Bool
ended s = s == 4

abbrev nothing_picked : ℕ → Bool
nothing_picked s = false

after_news : Broker
after_news =
    (publish_returns ended nothing_picked news surface_datagram joined joined-Distinct
      (λ r _. new_broker-IsBounded true joined-only r)).0

news-sent : publish (alone ended nothing_picked) news surface_datagram joined ≡ some after_news
unfolding after_news
news-sent =
    (publish_returns ended nothing_picked news surface_datagram joined joined-Distinct
      (λ r _. new_broker-IsBounded true joined-only r)).1

publish_delivers_example :
    ((r : ℕ)
      → is_member r (members joined (codes "t")) ≡ true
      → Got news (ended r) (joined.outbox r) (after_news.outbox r) surface_datagram)
    × ((r : ℕ)
        → is_member r (members joined (codes "t")) ≡ false
        → after_news.outbox r ≡ joined.outbox r)
    × (after_news ≡ record joined { outbox = after_news.outbox })
publish_delivers_example =
    publish_delivers ended nothing_picked news surface_datagram joined after_news joined-Distinct
      news-sent

-- A queue of 128 frames that loses its oldest to a new one.
abbrev full : Broker
full = record joined {
  outbox = λ _. record { datagrams = join ∷ replicate 127 news; streams = [] };
}

oldest_lost :
    Option.map
      (λ (b : Broker). (b.outbox 9).datagrams)
      (publish (alone ended nothing_picked) news surface_datagram full)
    ≡ some (replicate 127 news ++ news ∷ [])
unfolding publish joined same_bytes deliver_all enqueue_on send_datagram send_or_done drop_oldest
oldest_lost = refl

-- Another publisher takes the place that was made: the send waits.
abbrev refilled : Turns
refilled s = record {
  before = λ b. b;
  before_drop = λ b. b;
  before_send = λ b. full;
  done = false;
  picks_done = false;
}

refilled_waits : publish refilled news surface_datagram full ≡ none
unfolding publish joined same_bytes deliver_all enqueue_on send_datagram send_or_done
refilled_waits = refl

-- A client publishes on its control stream, while another goroutine makes room in a channel each time.
abbrev drop_four : Broker → Broker
drop_four b = with_outbox 4 (drop_oldest (b.outbox 4)) b

abbrev send_to : ℕ → Broker → Broker
send_to s b = with_outbox s (record (b.outbox s) { streams = (b.outbox s).streams ++ news ∷ [] }) b

abbrev dropping : Turns
dropping s = record {
  before = drop_four;
  before_drop = λ b. b;
  before_send = λ b. b;
  done = false;
  picks_done = true;
}

abbrev sent_both : Broker
sent_both = send_to 4 (drop_four (send_to 9 (drop_four joined)))
