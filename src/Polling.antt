-- ===== src/Polling.antt =====
-- internal/client/client.go (`GetState`, `GetConfig`, `getJSON`) and internal/roles/poller.go (`PollOnce`,
-- `Run`). How a request is answered is the argument `send`, over a state of its own; `none` is an error of
-- the transport.
pub mod Served
mod Tests
use quixiot.Prelude.{
  ℕ, zero, suc, ◌+◌, List, [], ◌∷◌, ◌++◌, Bytes, false, Option, none, some, is_empty, if◌then◌else◌,
  Result, ok, err,
}
use quixiot.Prelude.Int.{pos}
use quixiot.Prelude.Strings.{codes}
use quixiot.Prelude.Json.{json_text}
use quixiot.ClientCommand.{DeviceConfig}
use quixiot.Roles.Stamps.{Poller, RoleError, check_poller}
use quixiot.Upload.Serving.{refused, served}
use quixiot.Server.Paths.{path_escape}
use quixiot.Server.Routes.{
  HttpRequest, get, StateResponse, Answer, told, state_json, config_json, upload_reply,
}

pub data GetError : Type 0 where
  no_client_id transport_failed decode_failed : GetError
  unexpected_status : ℕ → GetError

-- An answer that is not what was asked for: its status, or that its text has unknown fields or is no JSON.
pub unwanted : Answer → GetError
unwanted (told status) = unexpected_status status
unwanted (upload_reply (refused status)) = unexpected_status status
unwanted _ = decode_failed

-- The strings of an answer have been through encoding/json.
pub as_state : Option Answer → Result GetError StateResponse
unfolding unwanted
as_state none = err transport_failed
as_state (some (state_json r)) = ok (record r { version = json_text r.version })
as_state (some a) = err (unwanted a)

pub as_config : Option Answer → Result GetError DeviceConfig
unfolding unwanted
as_config none = err transport_failed
as_config (some (config_json c)) = ok (record c {
  client_id = json_text c.client_id;
  telemetry_topic = json_text c.telemetry_topic;
  command_topic = json_text c.command_topic;
})
as_config (some a) = err (unwanted a)

abbrev pub get_request : Bytes → HttpRequest
get_request path = record {
  method = get;
  path = path;
  content_length = pos 0;
  body = [];
  body_fails = false;
}

-- `base` is the path of the base URL.
module _ {S : Type 0} (base : Bytes) (send : HttpRequest → S → S × Option Answer) where
  pub get_state : S → S × Result GetError StateResponse
  unfolding as_state
  get_state s = let (t, a) = send (get_request (base ++ codes "/state")) s in (t, as_state a)

  pub get_config : Bytes → S → S × Result GetError DeviceConfig
  unfolding as_config
  get_config id s =
      let (t, a) = send (get_request (base ++ (codes "/config/" ++ path_escape id))) s in
      if is_empty id then (s, err no_client_id) else (t, as_config a)

  -- Behind `GetConfig`.
  with_config :
      StateResponse
      → S × Result GetError DeviceConfig
      → S × Result GetError (StateResponse × DeviceConfig)
  with_config state (t, err e) = (t, err e)
  with_config state (t, ok config) = (t, ok (state, config))

  -- Behind `GetState`.
  polled :
      Bytes → S × Result GetError StateResponse → S × Result GetError (StateResponse × DeviceConfig)
  unfolding with_config
  polled id (s, err e) = (s, err e)
  polled id (s, ok state) = with_config state (get_config id s)

  -- `PollOnce`, with what it logs.
  pub poll_once : Bytes → S → S × Result GetError (StateResponse × DeviceConfig)
  unfolding polled
  poll_once id s = polled id (get_state s)

  -- The polls of `Run`, one for each tick, whose errors are logged only.
  pub polls : Bytes → ℕ → S → S × List (Result GetError (StateResponse × DeviceConfig))
  polls id zero s = (s, [])
  polls id (suc ticks) s =
      let (t, result) = poll_once id s in
      let (last, results) = polls id ticks t in (last, result ∷ results)

  checked :
      S
      → Result RoleError (Unit {0})
      → S × List (Result GetError (StateResponse × DeviceConfig))
      → S × Result RoleError (List (Result GetError (StateResponse × DeviceConfig)))
  checked s (err e) run = (s, err e)
  checked s (ok u) (t, results) = (t, ok results)

  -- `Run`, up to its end after this many ticks, with one poll at first.
  pub run_poller :
      Poller → ℕ → S → S × Result RoleError (List (Result GetError (StateResponse × DeviceConfig)))
  unfolding checked
  run_poller p ticks s = checked s (check_poller p) (polls p.client_id (suc ticks) s)
