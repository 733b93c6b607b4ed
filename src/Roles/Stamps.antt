-- ===== src/Roles/Stamps.antt =====
-- internal/roles/publisher.go and subscriber.go: the stamp of a payload, and what the subscriber reads in it;
-- with what `Run` asks of the fields of the roles.
pub mod Parsing
mod Tests
use quixiot.Prelude.{
  ℕ, zero, suc, ◌+◌, ◌-◌, ◌*◌, ◌<◌, ◌^◌, Bool, true, false, not, ◌&&◌, ◌||◌, List, [], ◌∷◌, ◌++◌,
  Bytes, Option, none, some, is_empty, length, take, drop, replicate, ltb, leb, ◌==◌, if◌then◌else◌,
  Result, ok, err, guard, ◌>>=◌, ◌>>◌,
}
use quixiot.Prelude.Int.{ℤ, pos, negsuc, leb_ℤ}
use quixiot.Prelude.Strings.{codes, same_bytes, split_at}
use quixiot.Roles.{digits}

-- `stampedPayload`, at a time of the wall clock.
pub stamped_payload : ℕ → Bytes → Bytes → Bytes
stamped_payload now client_id kind =
    codes "ts="
    ++ (digits (suc now) now ++ (codes ";client=" ++ (client_id ++ (codes ";kind=" ++ kind))))

-- The payload of `publishTelemetry`: padded with zeros, and cut to the size.
pub telemetry_payload : ℕ → ℕ → Bytes → Bytes
unfolding stamped_payload
telemetry_payload size now client_id =
    let payload = stamped_payload now client_id (codes "telemetry") in
    let padded =
      if ltb (length payload) size
      then payload ++ replicate (size - length payload) 0
      else payload in
    take size padded

-- The digits of `strconv.ParseInt`, behind the sign: `none` at any other byte.
pub parse_digits : ℕ → Bytes → Option ℕ
parse_digits value [] = some value
parse_digits value (c ∷ rest) =
    let on = parse_digits (10 * value + (c - 48)) rest in if leb 48 c && leb c 57 then on else none

-- `strconv.ParseInt(s, 10, 64)`
in_int64 : Bool → Option ℕ → Option ℤ
in_int64 minus none = none
in_int64 false (some n) = if ltb n (2 ^ 63) then some (pos n) else none
in_int64 true (some zero) = some (pos 0)
in_int64 true (some (suc n)) = if ltb n (2 ^ 63) then some (negsuc n) else none

pub parse_int : Bytes → Option ℤ
unfolding in_int64 parse_digits
parse_int [] = none
parse_int (c ∷ rest) =
    if c == 45
    then (if is_empty rest then none else in_int64 true (parse_digits 0 rest))
    else if c == 43
    then (if is_empty rest then none else in_int64 false (parse_digits 0 rest))
    else in_int64 false (parse_digits 0 (c ∷ rest))

-- The loop of `parseStampedPayload`: the first part that begins with `ts=` decides.
pub first_stamp : List Bytes → Option ℤ
unfolding parse_int
first_stamp [] = none
first_stamp (part ∷ rest) =
    if same_bytes (take 3 part) (codes "ts=") then parse_int (drop 3 part) else first_stamp rest

pub parse_stamped_payload : Bytes → Option ℤ
unfolding first_stamp split_at
parse_stamped_payload raw = first_stamp (split_at 59 [] raw)

pub data RoleError : Type 0 where
  no_client no_client_id no_session no_topic bad_interval bad_payload_size : RoleError

pub record Poller : Type 0 where
  pub client : Bool
  pub client_id : Bytes
  pub interval : ℤ

unfoldable pub check_poller : Poller → Result RoleError (Unit {0})
check_poller p = do
  guard p.client no_client
  guard (not (is_empty p.client_id)) no_client_id
  guard (leb_ℤ (pos 1) p.interval) bad_interval

pub record Publisher : Type 0 where
  pub session : Bool
  pub client_id : Bytes
  pub telemetry_topic : Bytes
  pub command_topic : Bytes
  pub telemetry_interval : ℤ
  pub command_interval : ℤ
  pub payload_size : ℤ

unfoldable pub check_publisher : Publisher → Result RoleError (Unit {0})
check_publisher p = do
  guard p.session no_session
  guard (not (is_empty p.telemetry_topic || is_empty p.command_topic)) no_topic
  guard (leb_ℤ (pos 1) p.telemetry_interval && leb_ℤ (pos 1) p.command_interval) bad_interval
  guard (leb_ℤ (pos 1) p.payload_size) bad_payload_size

pub record Subscriber : Type 0 where
  pub session : Bool
  pub topics : List Bytes

unfoldable pub check_subscriber : Subscriber → Result RoleError (Unit {0})
check_subscriber s = do guard s.session no_session; guard (not (is_empty s.topics)) no_topic
