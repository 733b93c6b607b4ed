-- ===== src/Roles.antt =====
-- internal/roles/uploader.go: the names that `UploadOnce` gives its uploads.
pub mod UploadNames
pub mod Stamps
mod Tests
use quixiot.Prelude.{
  ℕ, zero, suc, ◌+◌, ◌-◌, ◌/◌, ◌%◌, Bool, true, false, ◌&&◌, ◌||◌, List, [], ◌∷◌, ◌++◌, length,
  is_empty, replicate, map, ltb, leb, ◌==◌, if◌then◌else◌,
}
use quixiot.Prelude.Strings.{codes}

-- The runes that `safeID` keeps.
pub is_id_rune : ℕ → Bool
is_id_rune r =
    (leb 97 r && leb r 122)
    || (leb 65 r && leb r 90)
    || (leb 48 r && leb r 57)
    || r == 45
    || r == 95

pub id_rune : ℕ → ℕ
unfolding is_id_rune
id_rune r = if is_id_rune r then r else 45

-- `safeID`, on the runes of the ID.
pub safe_id : List ℕ → List ℕ
unfolding id_rune
safe_id id = if is_empty id then codes "client" else map id_rune id

-- A number in decimal. Each round takes a digit off, so that as much fuel as the number and one more is
-- enough.
pub digits : ℕ → ℕ → List ℕ
digits zero n = []
digits (suc fuel) n =
    let front = digits fuel (n / 10) in (if ltb n 10 then [] else front) ++ (48 + n % 10) ∷ []

-- `%03d`
pub padded : ℕ → List ℕ
unfolding digits
padded n = let d = digits (suc n) n in replicate (3 - length d) 48 ++ d

-- `fmt.Sprintf("%s-%03d.bin", safeID(u.ClientID), seq)`
pub upload_name : List ℕ → ℕ → List ℕ
unfolding safe_id padded
upload_name client_id seq = safe_id client_id ++ (45 ∷ (padded seq ++ codes ".bin"))
