-- ===== src/Roles/Stamps/Tests.antt =====
-- Stamped payloads at concrete inputs, and the theorem on them.
use quixiot.Prelude.{◌+◌, ◌≤◌, ◌≡◌, refl, true, [], none, some, err, length, arith}
use quixiot.Prelude.Int.{pos, negsuc}
use quixiot.Prelude.Strings.{codes, same_bytes, split_at}
use quixiot.Roles.{digits}
use quixiot.Roles.Stamps.{
  telemetry_payload, parse_stamped_payload, Publisher, check_publisher, bad_payload_size,
}
use quixiot.Roles.Stamps.Parsing.{parse_stamped_payload-telemetry_payload}

-- A size of six bytes cuts the stamp, and the subscriber reads an earlier time.
stamps_run :
    (telemetry_payload 6 12345 (codes "d") ≡ codes "ts=123")
    × (parse_stamped_payload (codes "ts=123") ≡ some (pos 123))
    × (parse_stamped_payload (codes "a;ts=-7;ts=8") ≡ some (negsuc 6))
    × (parse_stamped_payload (codes "ts=9x;ts=8") ≡ none)
unfolding telemetry_payload parse_stamped_payload same_bytes split_at digits
stamps_run = (refl, refl, refl, refl)

digits_run : 3 + length (digits 12346 12345) ≤ 40
unfolding digits
digits_run = omega arith

abbrev publisher : Publisher
publisher = record {
  session = true;
  client_id = [];
  telemetry_topic = codes "t";
  command_topic = codes "c";
  telemetry_interval = pos 1;
  command_interval = pos 1;
  payload_size = pos 0;
}

publisher_run : check_publisher publisher ≡ err bad_payload_size
unfolding check_publisher
publisher_run = refl

parse_stamped_payload-telemetry_payload_example :
    parse_stamped_payload (telemetry_payload 40 12345 (codes "d;ts=1")) ≡ some (pos 12345)
parse_stamped_payload-telemetry_payload_example =
    parse_stamped_payload-telemetry_payload 40 12345 (codes "d;ts=1") (omega arith) digits_run
