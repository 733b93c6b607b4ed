-- ===== src/Datagrams/Path.antt =====
-- From the publisher to a subscriber.
use quixiot.Prelude.{Bytes}
use quixiot.Wire.{Frame, kind_pub}
use quixiot.Broker.{Broker}

-- The frame of a publication.
abbrev pub publication : Bytes → Bytes → Frame
publication topic payload = record { kind = kind_pub; topic = topic; payload = payload }
