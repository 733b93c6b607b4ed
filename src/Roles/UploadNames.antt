-- ===== src/Roles/UploadNames.antt =====
-- The server keeps the names of uploads as they are.
use quixiot.Prelude.{
  ℕ, zero, suc, ◌+◌, ◌-◌, ◌/◌, ◌%◌, ◌<◌, ◌≡◌, refl, Bool, true, false, List, [], ◌∷◌, ◌++◌, length,
  is_empty, replicate, map, length-append, ltb, if◌then◌else◌, ok, All, All-append, arith,
  Bool-cases, inl, inr,
}
use quixiot.Prelude.Strings.{codes, same_bytes}
use quixiot.Upload.{is_safe_rune, is_dot_name, sanitize_filename}
use quixiot.Upload.Names.{IsSafeName, sanitize_filename_safe}
use quixiot.Roles.{is_id_rune, id_rune, safe_id, digits, padded, upload_name}

abbrev AllSafe : List ℕ → Type 0
AllSafe = All (λ r. is_safe_rune r ≡ true)

id_rune_safe : (r : ℕ) → is_safe_rune (id_rune r) ≡ true
unfolding id_rune is_id_rune is_safe_rune
id_rune_safe r = elim (Bool-cases (is_id_rune r)) [
  | inl e ↦ rw e (ground (arith, e))
  | inr e ↦ rw e refl
]

map_safe : (id : List ℕ) → AllSafe (map id_rune id)
map_safe [] = tt
map_safe (r ∷ id) = (id_rune_safe r, map_safe id)

safe_id_safe : (id : List ℕ) → AllSafe (safe_id id) × (is_empty (safe_id id) ≡ false)
unfolding safe_id is_safe_rune
safe_id_safe [] = ((refl, (refl, (refl, (refl, (refl, (refl, tt)))))), refl)
safe_id_safe (r ∷ id) = (map_safe (r ∷ id), refl)

digit_safe : (n : ℕ) → is_safe_rune (48 + n % 10) ≡ true
unfolding is_safe_rune
digit_safe n = let small : n % 10 < 10 = omega arith in ground (arith, small)

if_safe : (b : Bool) (xs : List ℕ) → AllSafe xs → AllSafe (if b then [] else xs)
if_safe true xs h = tt
if_safe false xs h = h

digits_safe : (fuel n : ℕ) → AllSafe (digits fuel n)
unfolding digits
digits_safe zero n = tt
digits_safe (suc fuel) n =
    All-append _ _ _ (if_safe (ltb n 10) (digits fuel (n / 10)) (digits_safe fuel (n / 10)))
      (digit_safe n, tt)

zeros_safe : (n : ℕ) → AllSafe (replicate n 48)
unfolding is_safe_rune
zeros_safe zero = tt
zeros_safe (suc n) = (refl, zeros_safe n)

padded_safe : (n : ℕ) → AllSafe (padded n)
unfolding padded
padded_safe n =
    All-append _ (replicate (3 - length (digits (suc n) n)) 48) (digits (suc n) n)
      (zeros_safe (3 - length (digits (suc n) n))) (digits_safe (suc n) n)

upload_name_safe : (id : List ℕ) (seq : ℕ) → AllSafe (upload_name id seq)
unfolding upload_name is_safe_rune
upload_name_safe id seq =
    All-append _ (safe_id id) (45 ∷ (padded seq ++ codes ".bin")) (safe_id_safe id).0 (
      refl,
      All-append _ (padded seq) (codes ".bin") (padded_safe seq) (refl, (refl, (refl, (refl, tt)))),
    )

not_dots : (name : List ℕ) → 2 < length name → is_dot_name name ≡ false
unfolding is_dot_name same_bytes
not_dots [] h = ground (arith, h)
not_dots (a ∷ []) h = ground (arith, h)
not_dots (a ∷ b ∷ []) h = ground (arith, h)
not_dots (a ∷ b ∷ c ∷ name) h = ground (arith, h)

not_empty : (name : List ℕ) → 2 < length name → is_empty name ≡ false
not_empty [] h = ground (arith, h)
not_empty (a ∷ name) h = refl

upload_name_long : (client_id : List ℕ) (seq : ℕ) → 2 < length (upload_name client_id seq)
unfolding upload_name
upload_name_long id seq =
    let whole = length-append (safe_id id) (45 ∷ (padded seq ++ codes ".bin")) in
    omega (arith, whole, length-append (padded seq) (codes ".bin"))

pub is_empty-upload_name :
    (client_id : List ℕ) (seq : ℕ) → is_empty (upload_name client_id seq) ≡ false
is_empty-upload_name id seq = not_empty (upload_name id seq) (upload_name_long id seq)

pub upload_name-IsSafeName : (client_id : List ℕ) (seq : ℕ) → IsSafeName (upload_name client_id seq)
upload_name-IsSafeName id seq =
    let name = upload_name id seq in
    let long = upload_name_long id seq in
    (upload_name_safe id seq, not_empty name long, not_dots name long)

-- Whatever its ID is, the name that a client gives an upload is one that the server's `sanitizeFilename`
-- accepts and returns as it is.
pub sanitize_filename-upload_name :
    (client_id : List ℕ) (seq : ℕ)
    → sanitize_filename (upload_name client_id seq) ≡ ok (upload_name client_id seq)
sanitize_filename-upload_name id seq =
    sanitize_filename_safe (upload_name id seq) (upload_name-IsSafeName id seq)
