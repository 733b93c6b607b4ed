-- ===== src/Polling/Tests.antt =====
-- A poller at a server.
use quixiot.Prelude.{
  ℕ, ◌+◌, ◌*◌, ◌≤◌, ◌≡◌, refl, true, List, [], ◌∷◌, Bytes, none, some, length, ok, Result, arith,
}
use quixiot.Prelude.Int.{pos}
use quixiot.Prelude.Strings.{codes, same_bytes}
use quixiot.Prelude.Json.{json_text, IsUtf8, no_text, one_byte}
use quixiot.ClientCommand.{DeviceConfig}
use quixiot.Roles.Stamps.{Poller, check_poller}
use quixiot.Upload.{is_dot_name, removed_now}
use quixiot.Upload.Serving.{Disk, Answers}
use quixiot.Server.Paths.Segments.{IsSegment}
use quixiot.Server.Routes.{Server, StateResponse}
use quixiot.Polling.{GetError, run_poller}
use quixiot.Polling.Served.{answered_at, ArePolls, run_poller-ArePolls}

abbrev server : Server
server = record {
  version = codes "v1";
  started_at = 1000000;
  uploads = record { dir = codes "d"; max_storage_bytes = 5 };
  metrics = true;
}

abbrev answers : Answers
answers = record {
  dir_made = true;
  temp_dir_made = true;
  temp_made = true;
  temp_closed = true;
  renamed = true;
  temp_removed = true;
  listing = some [];
  remove = λ _. removed_now;
}

abbrev empty_disk : Disk
empty_disk = record { file = λ _. none; temp = none; stored = [] }

abbrev clock : ℕ → ℕ
clock n = 5000000 * (n + 1)

clock_begun : (n : ℕ) → server.started_at ≤ clock n
clock_begun n = omega arith

-- An ID that needs escaping.
abbrev device_id : Bytes
device_id = codes "a/b 1"

device_id-IsSegment : IsSegment device_id
unfolding is_dot_name same_bytes
device_id-IsSegment = record { bytes = omega arith; some_name = refl; no_dots = refl }

device_id-IsUtf8 : IsUtf8 device_id
device_id-IsUtf8 =
    one_byte refl (one_byte refl (one_byte refl (one_byte refl (one_byte refl no_text))))

server-IsUtf8 : IsUtf8 server.version
server-IsUtf8 = one_byte refl (one_byte refl no_text)

-- A byte that is not UTF-8 does not come back.
not_kept : json_text (97 ∷ 255 ∷ []) ≡ 97 ∷ 239 ∷ 191 ∷ 189 ∷ []
unfolding json_text
not_kept = refl

abbrev poller : Poller
poller = record { client = true; client_id = device_id; interval = pos 10 }

poller_checked : check_poller poller ≡ ok tt
unfolding check_poller
poller_checked = refl

run_poller-ArePolls_example :
    let (t, result) =
      run_poller [] (answered_at (λ b. b) (λ b. b) server answers clock) poller 2 (0, empty_disk) in
    (results : List (Result GetError (StateResponse × DeviceConfig))) × (result ≡ ok results)
    × (t ≡ (6, empty_disk))
    × (length results ≡ 3)
    × ArePolls
        (λ b. b)
        (λ b. b)
        server
        answers
        clock
        clock_begun
        device_id
        device_id-IsSegment
        device_id-IsUtf8
        server-IsUtf8
        0
        results
run_poller-ArePolls_example =
    run_poller-ArePolls (λ b. b) (λ b. b) server answers clock clock_begun device_id
      device_id-IsSegment device_id-IsUtf8 server-IsUtf8 poller 2 0 empty_disk refl poller_checked
