-- ===== src/Roles/Stamps/Parsing.antt =====
-- The subscriber reads the time that the publisher stamped.
use quixiot.Prelude.{
  ℕ, zero, suc, ◌+◌, ◌-◌, ◌*◌, ◌/◌, ◌%◌, ◌<◌, ◌≤◌, ◌^◌, ◌≡◌, ◌⊎◌, inl, inr, refl, ap, ◌∙◌, false,
  ◌&&◌, List, [], ◌∷◌, ◌++◌, Bytes, some, is_empty, length, take, replicate, append-nil,
  append_assoc, All, All-append, take-append_more, ltb, leb, ◌==◌, if◌then◌else◌, if_elim,
  Bool-cases, arith, lt→ltb,
}
use quixiot.Prelude.Int.{ℤ, pos}
use quixiot.Prelude.Strings.{codes, same_bytes, split_at, Lacks, split_at_last, split_at_first}
use quixiot.Roles.{digits, padded}
use quixiot.Roles.Stamps.{
  stamped_payload, telemetry_payload, parse_digits, in_int64, parse_int, first_stamp,
  parse_stamped_payload,
}

abbrev IsDigit : ℕ → Type 0
IsDigit c = (48 ≤ c) × (c ≤ 57)

digits-All : (fuel n : ℕ) → All IsDigit (digits fuel n)
unfolding digits
digits-All zero n = tt
digits-All (suc fuel) n =
    All-append IsDigit _ _
      (if_elim (All IsDigit) (ltb n 10) [] (digits fuel (n / 10)) (λ _. tt)
        (λ _. digits-All fuel (n / 10)))
      (omega arith, tt)

digits-Lacks : (xs : Bytes) → All IsDigit xs → Lacks 59 xs
digits-Lacks [] h = tt
digits-Lacks (c ∷ xs) h = (ground (arith, h.0), digits-Lacks xs h.1)

parse_digits-append :
    (value : ℕ) (xs : Bytes) (c u : ℕ)
    → parse_digits value xs ≡ some u
    → IsDigit c
    → parse_digits value (xs ++ c ∷ []) ≡ some (10 * u + (c - 48))
unfolding parse_digits
parse_digits-append value [] c u e h = ground (arith, e, h)
parse_digits-append value (x ∷ xs) c u e h = elim (Bool-cases (leb 48 x && leb x 57)) [
  | inl digit ↦
      rw digit (parse_digits-append (10 * value + (x - 48)) xs c u (ground (arith, e, digit)) h)
  | inr other ↦ absurd (ground (arith, e, other))
]

pub parse_digits-digits : (fuel n : ℕ) → n < fuel → parse_digits 0 (digits fuel n) ≡ some n
unfolding digits
parse_digits-digits zero n h = absurd (omega arith)
parse_digits-digits (suc fuel) n h = elim (Bool-cases (ltb n 10)) [
  | inl one ↦ rw one (
      parse_digits-append 0 [] (48 + n % 10) 0 (unfold parse_digits in refl) (omega arith)
      ∙ ap some (ground (arith, one)))
  | inr more ↦ rw more (
      parse_digits-append 0 (digits fuel (n / 10)) (48 + n % 10) (n / 10)
        (parse_digits-digits fuel (n / 10) (ground (arith, more))) (omega arith)
      ∙ ap some (omega arith))
]

parse_digits-zeros :
    (k : ℕ) (xs : Bytes) → parse_digits 0 (replicate k 48 ++ xs) ≡ parse_digits 0 xs
unfolding parse_digits
parse_digits-zeros zero xs = refl
parse_digits-zeros (suc k) xs = parse_digits-zeros k xs

pub parse_digits-padded : (n : ℕ) → parse_digits 0 (padded n) ≡ some n
unfolding padded
parse_digits-padded n =
    parse_digits-zeros (3 - length (digits (suc n) n)) (digits (suc n) n)
    ∙ parse_digits-digits (suc n) n (omega arith)

parse_int-digits :
    (xs : Bytes) (n : ℕ)
    → All IsDigit xs
    → is_empty xs ≡ false
    → parse_digits 0 xs ≡ some n
    → n < 2 ^ 63
    → parse_int xs ≡ some (pos n)
unfolding parse_int in_int64
parse_int-digits [] n h filled e small = cc
parse_int-digits (c ∷ xs) n h filled e small =
    let no_minus : (c == 45) ≡ false = ground (arith, h.0) in
    let no_plus : (c == 43) ≡ false = ground (arith, h.0) in
    rw (no_minus, no_plus, e) (rw (lt→ltb n (2 ^ 63) small) refl)

append_some : (xs : Bytes) (c : ℕ) → is_empty (xs ++ c ∷ []) ≡ false
append_some [] c = refl
append_some (x ∷ xs) c = refl

digits_some : (n : ℕ) → is_empty (digits (suc n) n) ≡ false
unfolding digits
digits_some n = append_some (if ltb n 10 then [] else digits n (n / 10)) (48 + n % 10)

-- What follows the stamp: nothing, or a semicolon and more.
abbrev Follows : Bytes → Type 0
Follows rest = (rest ≡ []) ⊎ ((more : Bytes) × (rest ≡ 59 ∷ more))

take-Follows : (n : ℕ) (more : Bytes) → Follows (take n (59 ∷ more))
take-Follows zero more = inl refl
take-Follows (suc n) more = inr (take n more, refl)

first_stamp-stamp :
    (d : Bytes) (parts : List Bytes) (t : ℤ)
    → parse_int d ≡ some t
    → first_stamp ((codes "ts=" ++ d) ∷ parts) ≡ some t
unfolding first_stamp same_bytes
first_stamp-stamp d parts t e = e

parse_stamp :
    (now : ℕ) (rest : Bytes)
    → now < 2 ^ 63
    → Follows rest
    → parse_stamped_payload (codes "ts=" ++ (digits (suc now) now ++ rest)) ≡ some (pos now)
unfolding parse_stamped_payload
parse_stamp now rest small follows =
    let d = digits (suc now) now in
    let stamp = codes "ts=" ++ d in
    let lacks : Lacks 59 stamp =
      (refl, (refl, (refl, digits-Lacks d (digits-All (suc now) now)))) in
    let read =
      parse_int-digits d now (digits-All (suc now) now) (digits_some now)
        (parse_digits-digits (suc now) now (omega arith)) small in
    let first = λ (parts : List Bytes). first_stamp-stamp d parts (pos now) read in
    elim follows [
      | inl e ↦ rw e (rw (append-nil d) (rw (split_at_last 59 [] stamp lacks) (first [])))
      | inr (more, e) ↦
          rw e (rw (split_at_first 59 [] stamp more lacks) (first (split_at 59 [] more)))
    ]

-- A payload cut behind its stamp.
cut_payload :
    (now size : ℕ) (more : Bytes)
    → now < 2 ^ 63
    → 3 + length (digits (suc now) now) ≤ size
    → parse_stamped_payload (take size (codes "ts=" ++ (digits (suc now) now ++ (59 ∷ more))))
      ≡ some (pos now)
cut_payload now size more small enough =
    let d = digits (suc now) now in
    let stamp = codes "ts=" ++ d in
    let cut = take-append_more size stamp (59 ∷ more) (omega (arith, enough)) in
    rw cut (
      parse_stamp now (take (size - length stamp) (59 ∷ more)) small
        (take-Follows (size - length stamp) more))

-- The subscriber reads from a telemetry payload the time at which the publisher stamped it, whatever the
-- client's ID is, where the payload has room for the stamp and its digits and the time is an int64.
pub parse_stamped_payload-telemetry_payload :
    (size now : ℕ) (client_id : Bytes)
    → now < 2 ^ 63
    → 3 + length (digits (suc now) now) ≤ size
    → parse_stamped_payload (telemetry_payload size now client_id) ≡ some (pos now)
unfolding telemetry_payload stamped_payload
parse_stamped_payload-telemetry_payload size now client_id small enough =
    let d = digits (suc now) now in
    let more = codes "client=" ++ (client_id ++ (codes ";kind=" ++ codes "telemetry")) in
    let payload = codes "ts=" ++ (d ++ (59 ∷ more)) in
    if_elim (λ x. parse_stamped_payload (take size x) ≡ some (pos now)) (ltb (length payload) size)
      _ _
      (λ _.
        let zeros : Bytes = replicate (size - length payload) 0 in
        rw (append_assoc d (59 ∷ more) zeros) (cut_payload now size (more ++ zeros) small enough))
      (λ _. cut_payload now size more small enough)
