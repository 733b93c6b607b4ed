-- ===== src/Datagrams/Tests.antt =====
-- A publication at concrete inputs.
use quixiot.Prelude.{◌≡◌, refl, true, false, [], ◌∷◌, Bytes, err}
use quixiot.Prelude.Strings.{codes}
use quixiot.Wire.{encode}
use quixiot.Wire.Tests.{rfc9000}
use quixiot.Broker.{Broker, Turns, new_broker, subscribe}
use quixiot.Broker.Delivery.{alone}
use quixiot.Datagrams.{publish_datagram, send_failed}

abbrev sent_bytes : Bytes
sent_bytes = 1 ∷ 1 ∷ 116 ∷ 7 ∷ []

not_sent : publish_datagram rfc9000 false (codes "t") (7 ∷ []) ≡ err send_failed
unfolding publish_datagram encode
not_sent = refl

abbrev quiet : Turns
quiet = alone (λ _. false) (λ _. false)

abbrev joined : Broker
joined = subscribe 4 (codes "t") (new_broker true)
