-- ===== src/ClientCommand.antt =====
-- cmd/client/main.go: the configuration of a client and the role that it starts, with `handleConfig` of
-- internal/server/server.go, whose answer names the topics. Durations are nanoseconds; a configuration
-- file is decoded by yaml.v3, which is a parameter.
pub mod Starts
mod Tests
use mathlib.Core.List.{reverse}
use quixiot.Prelude.{
  ℕ, zero, suc, length, drop, leb, ◌==◌, ◌*◌, ◌^◌, Bool, true, false, not, ◌&&◌, ◌||◌, List, [],
  ◌∷◌, ◌++◌, Bytes, Option, none, some, is_empty, if◌then◌else◌, Result, ok, err, guard, or_fail,
  ◌>>=◌, ◌>>◌,
}
use quixiot.Prelude.Int.{ℤ, pos}
use quixiot.Prelude.Strings.{codes, same_bytes, split_at}
use quixiot.Logging.{default_file_max_bytes, default_file_max_files}
use quixiot.UploadPath.{Uploader, UploaderError, check_uploader}
use quixiot.Roles.Stamps.{
  RoleError, Poller, check_poller, Publisher, check_publisher, Subscriber, check_subscriber,
}

pub record ClientConfig : Type 0 where
  pub server_url : Bytes
  pub ca_file : Bytes
  pub client_id : Bytes
  pub role : Bytes
  pub poll_interval : ℤ
  pub upload_interval : ℤ
  pub upload_size : ℤ
  pub telemetry_interval : ℤ
  pub command_interval : ℤ
  pub pub_sub_payload_size : ℤ
  pub telemetry_topic : Bytes
  pub command_topic : Bytes
  pub subscribe_topics : Bytes
  pub metrics_addr : Bytes
  pub log_level : Bytes
  pub log_file : Bytes
  pub log_max_bytes : ℤ
  pub log_max_files : ℤ

abbrev seconds : ℕ → ℤ
seconds n = pos (n * 1000000000)

unfoldable pub client_defaults : ClientConfig
client_defaults = record {
  server_url = codes "https://localhost:4444";
  ca_file = codes "var/certs/ca.pem";
  client_id = codes "client-local";
  role = codes "poller";
  poll_interval = seconds 5;
  upload_interval = seconds 30;
  upload_size = pos (2 ^ 20);
  telemetry_interval = seconds 2;
  command_interval = seconds 7;
  pub_sub_payload_size = pos 256;
  telemetry_topic = [];
  command_topic = [];
  subscribe_topics = [];
  metrics_addr = [];
  log_level = codes "info";
  log_file = [];
  log_max_bytes = pos default_file_max_bytes;
  log_max_files = pos default_file_max_files;
}

-- A flag that was set.
pub data ClientFlag : Type 0 where
  set_server_url set_ca_file set_client_id set_role set_telemetry_topic set_command_topic :
      Bytes → ClientFlag
  set_subscribe_topics set_metrics_addr set_log_level set_log_file : Bytes → ClientFlag
  set_poll_interval set_upload_interval set_upload_size set_telemetry_interval : ℤ → ClientFlag
  set_command_interval set_payload_size set_log_max_bytes set_log_max_files : ℤ → ClientFlag

-- The function that `fs.Visit` is given.
pub apply_flag : ClientFlag → ClientConfig → ClientConfig
apply_flag (set_server_url v) c = record c { server_url = v }
apply_flag (set_ca_file v) c = record c { ca_file = v }
apply_flag (set_client_id v) c = record c { client_id = v }
apply_flag (set_role v) c = record c { role = v }
apply_flag (set_poll_interval v) c = record c { poll_interval = v }
apply_flag (set_upload_interval v) c = record c { upload_interval = v }
apply_flag (set_upload_size v) c = record c { upload_size = v }
apply_flag (set_telemetry_interval v) c = record c { telemetry_interval = v }
apply_flag (set_command_interval v) c = record c { command_interval = v }
apply_flag (set_payload_size v) c = record c { pub_sub_payload_size = v }
apply_flag (set_telemetry_topic v) c = record c { telemetry_topic = v }
apply_flag (set_command_topic v) c = record c { command_topic = v }
apply_flag (set_subscribe_topics v) c = record c { subscribe_topics = v }
apply_flag (set_metrics_addr v) c = record c { metrics_addr = v }
apply_flag (set_log_level v) c = record c { log_level = v }
apply_flag (set_log_file v) c = record c { log_file = v }
apply_flag (set_log_max_bytes v) c = record c { log_max_bytes = v }
apply_flag (set_log_max_files v) c = record c { log_max_files = v }

pub apply_flags : List ClientFlag → ClientConfig → ClientConfig
unfolding apply_flag
apply_flags [] c = c
apply_flags (flag ∷ rest) c = apply_flags rest (apply_flag flag c)

pub data CommandError : Type 0 where
  config_file unsupported_role no_device_config no_session : CommandError

-- `config.LoadFile`: `decode` reads the file over a configuration; `none` is its error.
pub load_file :
    (Bytes → ClientConfig → Option ClientConfig)
    → Bytes
    → ClientConfig
    → Result CommandError ClientConfig
load_file decode path c = if is_empty path then ok c else or_fail (decode path c) config_file

-- The configuration that `run` comes to.
pub configure :
    (Bytes → ClientConfig → Option ClientConfig)
    → Bytes
    → List ClientFlag
    → Result CommandError ClientConfig
unfolding load_file apply_flags client_defaults
configure decode path flags = do c ← load_file decode path client_defaults; ok (apply_flags flags c)

-- The runes of `unicode.IsSpace` in UTF-8: those of one byte, and those of three.
abbrev is_ascii_space : ℕ → Bool
is_ascii_space a = (leb 9 a && leb a 13) || a == 32

abbrev is_long_space : ℕ → ℕ → ℕ → Bool
is_long_space a b c =
    (a == 225 && b == 154 && c == 128)
    || (a == 226
        && ((b == 128 && ((leb 128 c && leb c 138) || c == 168 || c == 169 || c == 175))
            || (b == 129 && c == 159)))
    || (a == 227 && b == 128 && c == 128)

-- `firstNonEmpty` of two.
pub first_non_empty : Bytes → Bytes → Bytes
first_non_empty a b = if is_empty a then b else a

-- The space rune, of `unicode.IsSpace`, that UTF-8 text begins with: how many bytes it takes, or 0.
space_width : Bytes → ℕ
space_width (a ∷ b ∷ c ∷ rest) =
    if is_ascii_space a
    then 1
    else if a == 194 && (b == 133 || b == 160)
    then 2
    else if is_long_space a b c
    then 3
    else 0
space_width (a ∷ b ∷ []) =
    if is_ascii_space a then 1 else if a == 194 && (b == 133 || b == 160) then 2 else 0
space_width (a ∷ []) = if is_ascii_space a then 1 else 0
space_width [] = 0

-- The same at the end of a text, which is given backwards.
space_width_back : Bytes → ℕ
space_width_back (c ∷ b ∷ a ∷ rest) =
    if is_ascii_space c
    then 1
    else if b == 194 && (c == 133 || c == 160)
    then 2
    else if is_long_space a b c
    then 3
    else 0
space_width_back (b ∷ a ∷ []) =
    if is_ascii_space b then 1 else if a == 194 && (b == 133 || b == 160) then 2 else 0
space_width_back (a ∷ []) = if is_ascii_space a then 1 else 0
space_width_back [] = 0

-- A loop that takes such runes off; each takes a byte at least.
trim_runes : (Bytes → ℕ) → ℕ → Bytes → Bytes
trim_runes width zero text = text
trim_runes width (suc fuel) text =
    let rest = trim_runes width fuel (drop (width text) text) in
    if width text == 0 then text else rest

-- `strings.TrimSpace`, on bytes.
trim_text : Bytes → Bytes
unfolding trim_runes space_width space_width_back
trim_text text =
    let front = trim_runes space_width (length text) text in
    reverse (trim_runes space_width_back (length front) (reverse front))

trimmed_items : List Bytes → List Bytes
unfolding trim_text
trimmed_items [] = []
trimmed_items (item ∷ rest) =
    let more = trimmed_items rest in
    let trimmed = trim_text item in if is_empty trimmed then more else trimmed ∷ more

-- `splitList`
pub split_list : Bytes → List Bytes
unfolding trimmed_items
split_list raw = trimmed_items (split_at 44 [] raw)

-- `configResponse` of the server, `DeviceConfig` of the client.
pub record DeviceConfig : Type 0 where
  pub client_id : Bytes
  pub desired_role : Bytes
  pub poll_interval_seconds : ℕ
  pub telemetry_topic : Bytes
  pub command_topic : Bytes

-- `handleConfig`
unfoldable pub handle_config : Bytes → DeviceConfig
handle_config client_id = record {
  client_id = client_id;
  desired_role = codes "poller";
  poll_interval_seconds = 5;
  telemetry_topic = codes "clients/" ++ (client_id ++ codes "/telemetry");
  command_topic = codes "clients/" ++ (client_id ++ codes "/commands");
}

pub passes {ℓ} : {E : Type ℓ} → Result E (Unit {0}) → Bool
passes (ok u) = true
passes (err e) = false

-- What is run.
pub data Started : Type 0 where
  starts_poller : Poller → Started
  starts_uploader : Uploader → Started
  starts_publisher : Publisher → Started
  starts_subscriber : Subscriber → Started
  starts_mixed : Poller → Uploader → Publisher → Subscriber → Started

-- What the roles that publish or subscribe ask for first.
pub pub_sub : Option DeviceConfig → Bool → Result CommandError DeviceConfig
pub_sub device connected = do d ← or_fail device no_device_config; guard connected no_session; ok d

module _ (c : ClientConfig) where
  pub poller_of : Poller
  poller_of = record { client = true; client_id = c.client_id; interval = c.poll_interval }

  pub uploader_of : Uploader
  uploader_of = record {
    client = true;
    client_id = c.client_id;
    interval = c.upload_interval;
    size = c.upload_size;
  }

  pub publisher_of : DeviceConfig → Publisher
  unfolding first_non_empty
  publisher_of d = record {
    session = true;
    client_id = c.client_id;
    telemetry_topic = first_non_empty c.telemetry_topic d.telemetry_topic;
    command_topic = first_non_empty c.command_topic d.command_topic;
    telemetry_interval = c.telemetry_interval;
    command_interval = c.command_interval;
    payload_size = c.pub_sub_payload_size;
  }

  pub subscriber_of : DeviceConfig → Subscriber
  unfolding first_non_empty split_list
  subscriber_of d = record {
    session = true;
    topics =
        if is_empty (split_list c.subscribe_topics)
        then first_non_empty c.telemetry_topic d.telemetry_topic
          ∷ first_non_empty c.command_topic d.command_topic
          ∷ []
        else split_list c.subscribe_topics;
  }

  -- The switch on the role. `device` is the answer of `GetConfig`, and `connected` that of `ConnectPubSub`.
  pub start_role : Option DeviceConfig → Bool → Result CommandError Started
  unfolding poller_of uploader_of publisher_of subscriber_of pub_sub
  start_role device connected =
      if same_bytes c.role (codes "poller")
      then ok (starts_poller poller_of)
      else if same_bytes c.role (codes "uploader")
      then ok (starts_uploader uploader_of)
      else if same_bytes c.role (codes "publisher")
      then (pub_sub device connected >>= λ d. ok (starts_publisher (publisher_of d)))
      else if same_bytes c.role (codes "subscriber")
      then (pub_sub device connected >>= λ d. ok (starts_subscriber (subscriber_of d)))
      else if same_bytes c.role (codes "mixed")
      then (pub_sub device connected >>= λ d.
          ok (starts_mixed poller_of uploader_of (publisher_of d) (subscriber_of d)))
      else err unsupported_role

-- The checks at the beginning of each `Run`. `Mixed` starts its four roles, and returns the error of one that
-- fails; its own checks hold, as the command sets the client and the session.
pub check_started : Started → Bool
unfolding passes
check_started (starts_poller p) = passes (check_poller p)
check_started (starts_uploader u) = passes (check_uploader u)
check_started (starts_publisher p) = passes (check_publisher p)
check_started (starts_subscriber s) = passes (check_subscriber s)
check_started (starts_mixed p u q s) =
    passes (check_poller p)
    && passes (check_uploader u)
    && passes (check_publisher q)
    && passes (check_subscriber s)
