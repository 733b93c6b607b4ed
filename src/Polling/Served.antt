-- ===== src/Polling/Served.antt =====
-- Polls that a server answers.
use quixiot.Prelude.{
  ℕ, zero, suc, ◌+◌, ◌-◌, ◌*◌, ◌/◌, ◌<◌, ◌≤◌, ◌≡◌, refl, ap, ◌∙◌, List, [], ◌∷◌, ◌++◌, Bytes,
  Option, some, true, ltb, All, length, arith, Result, ok,
}
use quixiot.Prelude.Int.{pos}
use quixiot.Prelude.Strings.{codes}
use quixiot.Prelude.Json.{IsUtf8, no_text, one_byte, IsUtf8-append, json_text_keeps}
use quixiot.ClientCommand.{DeviceConfig, handle_config}
use quixiot.Roles.Stamps.{Poller, check_poller}
use quixiot.Upload.Serving.{Disk, Answers}
use quixiot.Server.Paths.{path_escape}
use quixiot.Server.Paths.Segments.{IsSegment}
use quixiot.Server.Routes.{
  Server, HttpRequest, StateResponse, Answer, handle_state, millis_since, serve_request,
}
use quixiot.Server.Routes.Matching.{serve_request-state, serve_request-config}
use quixiot.Polling.{
  GetError, as_state, as_config, get_request, get_state, get_config, poll_once, polled, with_config,
  polls, run_poller,
}

-- The server at the other end of the connection, at the times of `clock`, with the requests so far.
abbrev pub answered_at :
    (Bytes → List ℕ)
    → (Bytes → Bytes)
    → Server
    → Answers
    → (ℕ → ℕ)
    → HttpRequest
    → ℕ × Disk
    → (ℕ × Disk) × Option Answer
answered_at runes hash s a clock r (n, d) =
    let (t, answer) = serve_request runes hash s a (clock n) r d in ((suc n, t), some answer)

-- What a poll of the server `s` at the time `now` comes to.
pub record IsPoll (s : Server) (id : Bytes) (now : ℕ)
    (result : Result GetError (StateResponse × DeviceConfig)) : Type 0 where
  pub state : StateResponse
  pub config : DeviceConfig
  pub succeeds : result ≡ ok (state, config)
  pub version : state.version ≡ s.version
  pub started_at : state.started_at ≡ s.started_at
  pub uptime :
      (millis : ℕ) × (state.uptime_millis ≡ pos millis)
      × (millis * 1000000 ≤ now - s.started_at)
      × (now - s.started_at < millis * 1000000 + 1000000)
  pub client_id : config.client_id ≡ id
  pub interval : config.poll_interval_seconds ≡ 5
  pub telemetry : config.telemetry_topic ≡ codes "clients/" ++ (id ++ codes "/telemetry")
  pub command : config.command_topic ≡ codes "clients/" ++ (id ++ codes "/commands")

millis_since_lem :
    (started now : ℕ)
    → started ≤ now
    → (millis : ℕ) × (millis_since started now ≡ pos millis)
      × (millis * 1000000 ≤ now - started)
      × (now - started < millis * 1000000 + 1000000)
unfolding millis_since
millis_since_lem started now h = ((now - started) / 1000000, ground arith, omega arith, omega arith)

-- ASCII is UTF-8.
ascii-IsUtf8 : (t : Bytes) → All (λ b. ltb b 128 ≡ true) t → IsUtf8 t
ascii-IsUtf8 [] h = no_text
ascii-IsUtf8 (b ∷ t) h = one_byte h.0 (ascii-IsUtf8 t h.1)

clients_text : IsUtf8 (codes "clients/")
clients_text = ascii-IsUtf8 (codes "clients/") (ground arith)

telemetry_text : IsUtf8 (codes "/telemetry")
telemetry_text = ascii-IsUtf8 (codes "/telemetry") (ground arith)

commands_text : IsUtf8 (codes "/commands")
commands_text = ascii-IsUtf8 (codes "/commands") (ground arith)

module _ (runes : Bytes → List ℕ) (hash : Bytes → Bytes) (s : Server) (a : Answers) (clock : ℕ → ℕ)
    (begun : (n : ℕ) → s.started_at ≤ clock n) (id : Bytes) (h : IsSegment id) (text : IsUtf8 id)
    (version_text : IsUtf8 s.version) where
  abbrev send : HttpRequest → ℕ × Disk → (ℕ × Disk) × Option Answer
  send = answered_at runes hash s a clock

  -- The topics are text as well.
  topic_text : (suffix : Bytes) → IsUtf8 suffix → IsUtf8 (codes "clients/" ++ (id ++ suffix))
  topic_text suffix h = IsUtf8-append clients_text (IsUtf8-append text h)

  get_state_served :
      (n : ℕ) (d : Disk) → get_state [] send (n, d) ≡ ((suc n, d), ok (handle_state s (clock n)))
  unfolding get_state as_state handle_state
  get_state_served n d =
      rw (serve_request-state runes hash s a (clock n) (get_request (codes "/state")) d refl refl)
        (rw (json_text_keeps version_text) refl)

  get_config_served :
      (n : ℕ) (d : Disk) → get_config [] send id (n, d) ≡ ((suc n, d), ok (handle_config id))
  unfolding get_config as_config handle_config
  get_config_served n d =
      rw
        (
          h.some_name,
          serve_request-config runes hash s a (clock n)
              (get_request (codes "/config/" ++ path_escape id)) d id h refl refl,
        )
        (rw
          (
            json_text_keeps text,
            json_text_keeps (topic_text (codes "/telemetry") telemetry_text),
            json_text_keeps (topic_text (codes "/commands") commands_text),
          )
          refl)

  poll_once_served :
      (n : ℕ) (d : Disk)
      → poll_once [] send id (n, d)
        ≡ ((suc (suc n), d), ok (handle_state s (clock n), handle_config id))
  unfolding poll_once
  poll_once_served n d =
      ap (polled [] send id) (get_state_served n d)
      ∙ ap (with_config [] send (handle_state s (clock n))) (get_config_served (suc n) d)

  served-IsPoll : (n : ℕ) → IsPoll s id (clock n) (ok (handle_state s (clock n), handle_config id))
  unfolding handle_state handle_config
  served-IsPoll n = record {
    state = handle_state s (clock n);
    config = handle_config id;
    succeeds = refl;
    version = refl;
    started_at = refl;
    uptime = millis_since_lem s.started_at (clock n) (begun n);
    client_id = refl;
    interval = refl;
    telemetry = refl;
    command = refl;
  }

  -- Each poll in its turn, two requests one behind the other.
  abbrev pub ArePolls : ℕ → List (Result GetError (StateResponse × DeviceConfig)) → Type 0
  ArePolls n [] = Unit
  ArePolls n (result ∷ rest) = IsPoll s id (clock n) result × ArePolls (suc (suc n)) rest

  polls-ArePolls :
      (ticks n : ℕ) (d : Disk)
      → let (t, results) = polls [] send id ticks (n, d) in
        (t ≡ (n + 2 * ticks, d)) × (length results ≡ ticks) × ArePolls n results
  unfolding polls
  polls-ArePolls zero n d = (ground arith, refl, tt)
  polls-ArePolls (suc ticks) n d =
      let (t, many, are) = polls-ArePolls ticks (suc (suc n)) d in
      rw (poll_once_served n d)
        (t ∙ ap (λ m. (m, d)) (omega arith), omega (arith, many), (served-IsPoll n, are))

  -- A poller whose fields are sound polls once at first and once for each tick, and each poll of a server
  -- that has started by then succeeds, with nothing changed on the server's disk: the state has the server's
  -- version and start, and as uptime the whole milliseconds since; the configuration has the client's ID and
  -- its two topics. The ID and the server's version are UTF-8, the ID is not
  -- empty and not one or two dots, and the base URL has no path.
  pub run_poller-ArePolls :
      (p : Poller) (ticks n : ℕ) (d : Disk)
      → p.client_id ≡ id
      → check_poller p ≡ ok tt
      → let (t, result) = run_poller [] send p ticks (n, d) in
        (results : List (Result GetError (StateResponse × DeviceConfig))) × (result ≡ ok results)
        × (t ≡ (n + 2 * suc ticks, d))
        × (length results ≡ suc ticks)
        × ArePolls n results
  unfolding run_poller
  run_poller-ArePolls p ticks n d named fine =
      let (t, many, are) = polls-ArePolls (suc ticks) n d in
      (
        (polls [] send id (suc ticks) (n, d)).1,
        rw (fine, named) refl,
        rw (fine, named) t,
        many,
        are,
      )
