-- ===== src/Roles/Tests.antt =====
-- Names of uploads, at concrete inputs.
use quixiot.Prelude.{◌≡◌, refl, []}
use quixiot.Prelude.Strings.{codes}
use quixiot.Roles.{upload_name}

names_run :
    (upload_name (codes "dev/7.a") 5 ≡ codes "dev-7-a-005.bin")
    × (upload_name [] 1234 ≡ codes "client-1234.bin")
unfolding upload_name
names_run = (refl, refl)
