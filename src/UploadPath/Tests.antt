-- ===== src/UploadPath/Tests.antt =====
-- An upload of a client, and the theorems on it.
use quixiot.Prelude.{
  ℕ, ◌+◌, ◌*◌, ◌≡◌, refl, true, false, [], ◌∷◌, Bytes, none, some, ok, err, length, arith,
}
use quixiot.Prelude.Int.{pos}
use quixiot.Prelude.Strings.{codes}
use quixiot.Upload.{removed_now, prune_dir}
use quixiot.UploadBody.{drawn}
use quixiot.Roles.{upload_name}
use quixiot.Upload.Serving.{join, Handler, Disk, Answers}
use quixiot.UploadPath.{Uploader, bad_interval, check_uploader, upload_once}
use quixiot.UploadPath.Arrival.{Arrived, answered_by, upload_once_sound, upload_once_arrives}
use quixiot.UploadPath.OverHttp.{Utf8, post_over, http_server, upload_once_over_http}
use quixiot.Server.Routes.{Server}

abbrev sum_hash : Bytes → Bytes
sum_hash bytes = length bytes ∷ []

abbrev random : ℕ → ℕ → ℕ
random seed i = seed + 2 * i

abbrev handler : Handler
handler = record { dir = codes "d"; max_storage_bytes = 5 }

abbrev device : Uploader
device = record { client = true; client_id = codes "dev 1"; interval = pos 10; size = pos 3 }

abbrev empty_disk : Disk
empty_disk = record { file = λ _. none; temp = none; stored = [] }

abbrev fine : Answers
fine = record {
  dir_made = true;
  temp_dir_made = true;
  temp_made = true;
  temp_closed = true;
  renamed = true;
  temp_removed = true;
  listing = some [];
  remove = λ _. removed_now;
}

check_run : check_uploader (record device { interval = pos 0 }) ≡ err bad_interval
unfolding check_uploader
check_run = refl

prune_run : (path : Bytes) → (prune_dir (λ _. removed_now) 5 path (some [])).1 ≡ none
unfolding prune_dir
prune_run path = refl

upload_once_arrives_example :
    let (t, result) =
      upload_once sum_hash random
        (2 ∷ 2 ∷ [])
        (8 ∷ [])
        (answered_by sum_hash handler fine)
        device
        4
        empty_disk in
    (result ≡ ok (record { bytes = 3; sha256 = sum_hash (drawn (random 5) 0 3) }))
    × Arrived sum_hash handler
        (upload_name device.client_id 4)
        (drawn (random 5) 0 3)
        empty_disk
        t
        (record { bytes = 3; sha256 = sum_hash (drawn (random 5) 0 3) })
upload_once_arrives_example =
    upload_once_arrives sum_hash random (2 ∷ 2 ∷ []) (8 ∷ []) handler fine device 3 4 refl refl refl
      (omega arith) (omega arith) empty_disk refl (λ _. omega arith) refl refl refl
      (λ _. prune_run (join handler.dir (upload_name device.client_id 4)))

upload_once_sound_example :
    Arrived sum_hash handler
      (upload_name device.client_id 4)
      (drawn (random 5) 0 3)
      empty_disk
      (upload_once sum_hash random
        (2 ∷ 2 ∷ [])
        (8 ∷ [])
        (answered_by sum_hash handler fine)
        device
        4
        empty_disk).0
      (record { bytes = 3; sha256 = sum_hash (drawn (random 5) 0 3) })
    × (length (drawn (random 5) 0 3) ≡ 3)
upload_once_sound_example =
    upload_once_sound sum_hash random (2 ∷ 2 ∷ []) (8 ∷ []) handler fine device 3 4 refl refl refl
      (omega arith) (omega arith) empty_disk
      (record { bytes = 3; sha256 = sum_hash (drawn (random 5) 0 3) }) upload_once_arrives_example.0

abbrev ascii : Utf8
ascii = record {
  encode = λ xs. xs;
  decode = λ xs. xs;
  encode_ascii = λ _ _. refl;
  decode_ascii = λ _ _. refl;
}

abbrev server : Server
server = record { version = codes "v"; started_at = 1; uploads = handler; metrics = false }

upload_once_over_http_example :
    upload_once sum_hash random
      (2 ∷ 2 ∷ [])
      (8 ∷ [])
      (post_over ascii [] (http_server ascii sum_hash server fine 9))
      device
      4
      empty_disk
    ≡ upload_once sum_hash random
        (2 ∷ 2 ∷ [])
        (8 ∷ [])
        (answered_by sum_hash handler fine)
        device
        4
        empty_disk
upload_once_over_http_example =
    upload_once_over_http ascii sum_hash server fine 9 random (2 ∷ 2 ∷ []) (8 ∷ []) device 4
      empty_disk
