-- ===== src/Prelude/Json.antt =====
-- What a Go string is once encoding/json has written and read it: each byte that is no part of a UTF-8
-- sequence has become U+FFFD, and all else, escaped or not, is as it was.
use mathlib.Core.Path.{◌≡◌, refl, ap}
use mathlib.Core.Bool.{Bool, true, false, ◌&&◌}
use mathlib.Core.List.{List, [], ◌∷◌, ◌++◌}
use Prim.Native.Nat.{ℕ, zero, suc, ◌≤◌}
use native.Mathlib.Omega.{arith}
use quixiot.Prelude.Tests.{ltb, leb, ◌==◌, if◌then◌else◌}
use quixiot.Prelude.Lists.{length, take, drop}

abbrev is_between : ℕ → ℕ → ℕ → Bool
is_between low high b = leb low b && leb b high

-- A byte that continues a sequence.
abbrev is_next : ℕ → Bool
is_next b = is_between 128 191 b

abbrev pub is_two : ℕ → ℕ → Bool
is_two a b = is_between 194 223 a && is_next b

abbrev pub is_three : ℕ → ℕ → ℕ → Bool
is_three a b c =
    is_between 224 239 a
    && is_next c
    && (if a == 224
        then is_between 160 191 b
        else if a == 237
        then is_between 128 159 b
        else is_next b)

abbrev pub is_four : ℕ → ℕ → ℕ → ℕ → Bool
is_four a b c d =
    is_between 240 244 a
    && is_next c
    && is_next d
    && (if a == 240
        then is_between 144 191 b
        else if a == 244
        then is_between 128 143 b
        else is_next b)

starts_two : ℕ → List ℕ → Bool
starts_two a [] = false
starts_two a (b ∷ rest) = is_two a b

starts_three : ℕ → List ℕ → Bool
starts_three a [] = false
starts_three a (b ∷ []) = false
starts_three a (b ∷ c ∷ rest) = is_three a b c

starts_four : ℕ → List ℕ → Bool
starts_four a [] = false
starts_four a (b ∷ []) = false
starts_four a (b ∷ c ∷ []) = false
starts_four a (b ∷ c ∷ d ∷ rest) = is_four a b c d

-- The length of the sequence that a text begins with, or 0.
sequence_length : ℕ → List ℕ → ℕ
unfolding starts_two starts_three starts_four
sequence_length a rest =
    if ltb a 128
    then 1
    else if starts_two a rest
    then 2
    else if starts_three a rest
    then 3
    else if starts_four a rest
    then 4
    else 0

json_bytes : ℕ → List ℕ → List ℕ
unfolding sequence_length
json_bytes zero text = []
json_bytes (suc fuel) [] = []
json_bytes (suc fuel) (a ∷ rest) =
    let n = sequence_length a rest in
    let next = json_bytes fuel (drop n (a ∷ rest)) in
    let skipped = json_bytes fuel rest in
    if n == 0 then 239 ∷ 191 ∷ 189 ∷ skipped else take n (a ∷ rest) ++ next

-- Each round takes a byte at least.
unfoldable pub json_text : List ℕ → List ℕ
unfolding json_bytes
json_text text = json_bytes (length text) text

-- A text of UTF-8 sequences.
pub data IsUtf8 : List ℕ → Type 0 where
  no_text : IsUtf8 []
  one_byte : {a : ℕ} {r : List ℕ} → ltb a 128 ≡ true → IsUtf8 r → IsUtf8 (a ∷ r)
  two_bytes : {a b : ℕ} {r : List ℕ} → is_two a b ≡ true → IsUtf8 r → IsUtf8 (a ∷ b ∷ r)
  three_bytes : {a b c : ℕ} {r : List ℕ} → is_three a b c ≡ true → IsUtf8 r → IsUtf8 (a ∷ b ∷ c ∷ r)
  four_bytes :
      {a b c d : ℕ} {r : List ℕ} → is_four a b c d ≡ true → IsUtf8 r → IsUtf8 (a ∷ b ∷ c ∷ d ∷ r)

pub IsUtf8-append : {s t : List ℕ} → IsUtf8 s → IsUtf8 t → IsUtf8 (s ++ t)
IsUtf8-append no_text u = u
IsUtf8-append (one_byte e h) u = one_byte e (IsUtf8-append h u)
IsUtf8-append (two_bytes e h) u = two_bytes e (IsUtf8-append h u)
IsUtf8-append (three_bytes e h) u = three_bytes e (IsUtf8-append h u)
IsUtf8-append (four_bytes e h) u = four_bytes e (IsUtf8-append h u)

json_bytes_keeps : {t : List ℕ} (fuel : ℕ) → length t ≤ fuel → IsUtf8 t → json_bytes fuel t ≡ t
unfolding json_bytes
json_bytes_keeps zero h no_text = refl
json_bytes_keeps (suc fuel) h no_text = refl
json_bytes_keeps zero h (one_byte {a = a} {r = r} e u) = elim h [ ]
json_bytes_keeps zero h (two_bytes {a = a} {b = b} {r = r} e u) = elim h [ ]
json_bytes_keeps zero h (three_bytes {a = a} {b = b} {c = c} {r = r} e u) = elim h [ ]
json_bytes_keeps zero h (four_bytes {a = a} {b = b} {c = c} {d = d} {r = r} e u) = elim h [ ]
json_bytes_keeps (suc fuel) h (one_byte {a = a} {r = r} e u) =
    rw e (ap (λ x. a ∷ x) (json_bytes_keeps fuel (omega (arith, h)) u))
json_bytes_keeps (suc fuel) h (two_bytes {a = a} {b = b} {r = r} e u) =
    let n : sequence_length a (b ∷ r) ≡ 2 = ground (arith, e) in
    rw n (ap (λ x. a ∷ b ∷ x) (json_bytes_keeps fuel (omega (arith, h)) u))
json_bytes_keeps (suc fuel) h (three_bytes {a = a} {b = b} {c = c} {r = r} e u) =
    let n : sequence_length a (b ∷ c ∷ r) ≡ 3 = ground (arith, e) in
    rw n (ap (λ x. a ∷ b ∷ c ∷ x) (json_bytes_keeps fuel (omega (arith, h)) u))
json_bytes_keeps (suc fuel) h (four_bytes {a = a} {b = b} {c = c} {d = d} {r = r} e u) =
    let n : sequence_length a (b ∷ c ∷ d ∷ r) ≡ 4 = ground (arith, e) in
    rw n (ap (λ x. a ∷ b ∷ c ∷ d ∷ x) (json_bytes_keeps fuel (omega (arith, h)) u))

-- encoding/json keeps a text that is UTF-8.
pub json_text_keeps : {t : List ℕ} → IsUtf8 t → json_text t ≡ t
unfolding json_text
json_text_keeps {t} h = json_bytes_keeps (length t) (omega arith) h
