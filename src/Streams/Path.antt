-- ===== src/Streams/Path.antt =====
-- From a publisher's control stream to a subscriber's messages.
use quixiot.Prelude.{Bytes}
use quixiot.Broker.{Broker, surface_stream}
use quixiot.Datagrams.{Message}

abbrev pub message : Bytes → Bytes → Message
message topic payload = record { topic = topic; payload = payload; surface = surface_stream }
