-- ===== src/Server/Paths.antt =====
-- The paths of requests: `url.PathEscape`, by which internal/client/client.go writes a name into a path, and
-- what the routing of net/http reads in a path.
pub mod Escaping
pub mod Segments
use quixiot.Prelude.{
  ℕ, ◌+◌, ◌-◌, ◌*◌, ◌/◌, ◌%◌, Bool, true, false, not, ◌&&◌, ◌||◌, List, [], ◌∷◌, ◌++◌, Bytes,
  Option, none, some, is_empty, ltb, leb, ◌==◌, if◌then◌else◌, map,
}
use quixiot.Prelude.Strings.{split_at}
use quixiot.Upload.{is_dot_name}

-- The bytes that a segment of a path keeps: the unreserved ones, and `$&+:=@`.
unfoldable pub is_kept : ℕ → Bool
is_kept c =
    (leb 97 c && leb c 122)
    || (leb 64 c && leb c 90)
    || (leb 48 c && leb c 58)
    || c == 45
    || c == 95
    || c == 46
    || c == 126
    || c == 36
    || c == 38
    || c == 43
    || c == 61

unfoldable pub hex_digit : ℕ → ℕ
hex_digit n = if ltb n 10 then 48 + n else 55 + n

unfoldable pub unhex : ℕ → Option ℕ
unhex c =
    if leb 48 c && leb c 57
    then some (c - 48)
    else if leb 97 c && leb c 102
    then some (c - 87)
    else if leb 65 c && leb c 70
    then some (c - 55)
    else none

pub escape_byte : ℕ → Bytes
escape_byte c = if is_kept c then c ∷ [] else 37 ∷ hex_digit (c / 16) ∷ hex_digit (c % 16) ∷ []

-- `url.PathEscape`
unfoldable pub path_escape : Bytes → Bytes
unfolding escape_byte
path_escape [] = []
path_escape (c ∷ rest) = escape_byte c ++ path_escape rest

-- What a byte stands behind: nothing that is open, a percent sign, or that and a digit.
pub data Pending : Type 0 where
  nothing percent : Pending
  digit : ℕ → Pending

consed : ℕ → Option Bytes → Option Bytes
consed c none = none
consed c (some rest) = some (c ∷ rest)

-- `url.PathUnescape`; `none` is its error.
unfoldable pub unescape : Pending → Bytes → Option Bytes
unfolding consed
unescape nothing [] = some []
unescape percent [] = none
unescape (digit h) [] = none
unescape nothing (c ∷ rest) =
    let coded = unescape percent rest in
    let plain = consed c (unescape nothing rest) in if c == 37 then coded else plain
unescape percent (c ∷ rest) = elim (unhex c) [ none ↦ none | some h ↦ unescape (digit h) rest ]
unescape (digit h) (c ∷ rest) = elim (unhex c) [
  | none ↦ none
  | some l ↦ consed (16 * h + l) (unescape nothing rest)
]

-- The routing keeps a segment that has no code.
unescaped : Bytes → Bytes
unfolding unescape
unescaped segment = elim (unescape nothing segment) [ none ↦ segment | some s ↦ s ]

-- The segments of a path, the first in front of its first slash.
unfoldable pub segments : Bytes → List Bytes
segments path = split_at 47 [] path

-- `cleanPath` leaves a path as it is: it begins with a slash, and each segment but the last is there and not
-- one or two dots, the last not these dots.
clean_rest : List Bytes → Bool
clean_rest [] = true
clean_rest (s ∷ []) = not (is_dot_name s)
clean_rest (s ∷ t ∷ rest) = not (is_empty s) && not (is_dot_name s) && clean_rest (t ∷ rest)

unfoldable pub is_clean : List Bytes → Bool
unfolding clean_rest
is_clean [] = false
is_clean (s ∷ rest) = is_empty s && not (is_empty rest) && clean_rest rest

unfoldable pub decoded : List Bytes → List Bytes
unfolding unescaped
decoded segs = map unescaped segs
