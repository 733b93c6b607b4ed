-- ===== src/Server/Paths/Escaping.antt =====
-- An escaped name is one segment of a path, and is read back from it.
use quixiot.Prelude.{
  ℕ, ◌+◌, ◌*◌, ◌/◌, ◌%◌, ◌<◌, ◌≡◌, refl, ap, sym, ◌∙◌, true, false, [], ◌∷◌, ◌++◌, Bytes, some,
  is_empty, ◌==◌, All, arith, Bool-cases, inl, inr,
}
use quixiot.Prelude.Strings.{codes, Lacks, same_bytes, same_bytes_iff}
use quixiot.Upload.{is_dot_name}
use quixiot.Server.Paths.{
  is_kept, hex_digit, unhex, escape_byte, path_escape, nothing, percent, digit, unescape, consed,
}

abbrev pub IsByte : ℕ → Type 0
IsByte c = c < 256

unhex-hex_digit : (n : ℕ) → n < 16 → unhex (hex_digit n) ≡ some n
unfolding unhex hex_digit
unhex-hex_digit n h = ground arith

kept_not_percent : (c : ℕ) → is_kept c ≡ true → (c == 37) ≡ false
unfolding is_kept
kept_not_percent c h = ground arith

unescape_first :
    (c h : ℕ) (rest : Bytes)
    → unhex c ≡ some h
    → unescape percent (c ∷ rest) ≡ unescape (digit h) rest
unfolding unescape
unescape_first c h rest e = ground (arith, e)

unescape_second :
    (c h l : ℕ) (rest : Bytes)
    → unhex c ≡ some l
    → unescape (digit h) (c ∷ rest) ≡ consed (16 * h + l) (unescape nothing rest)
unfolding unescape
unescape_second c h l rest e = ground (arith, e)

unescape-escape_byte :
    (c : ℕ) (rest : Bytes)
    → c < 256
    → unescape nothing (escape_byte c ++ rest) ≡ consed c (unescape nothing rest)
unfolding unescape escape_byte
unescape-escape_byte c rest h = elim (Bool-cases (is_kept c)) [
  | inl kept ↦ rw (kept, kept_not_percent c kept) refl
  | inr coded ↦
      let whole : 16 * (c / 16) + c % 16 ≡ c = omega arith in
      rw coded (
        unescape_first (hex_digit (c / 16)) (c / 16) (hex_digit (c % 16) ∷ rest)
          (unhex-hex_digit (c / 16) (omega (arith, h)))
        ∙ unescape_second (hex_digit (c % 16)) (c / 16) (c % 16) rest
            (unhex-hex_digit (c % 16) (omega arith))
        ∙ ap (λ b. consed b (unescape nothing rest)) whole)
]

pub unescape-path_escape :
    (name : Bytes) → All IsByte name → unescape nothing (path_escape name) ≡ some name
unfolding unescape path_escape consed
unescape-path_escape [] h = refl
unescape-path_escape (c ∷ rest) h =
    unescape-escape_byte c (path_escape rest) h.0 ∙ ap (consed c) (unescape-path_escape rest h.1)

escape_byte-Lacks :
    (c : ℕ) (rest : Bytes) → c < 256 → Lacks 47 rest → Lacks 47 (escape_byte c ++ rest)
unfolding escape_byte is_kept hex_digit
escape_byte-Lacks c rest b h = elim (Bool-cases (is_kept c)) [
  | inl kept ↦ rw kept (ground (arith, kept), h)
  | inr coded ↦ rw coded (refl, (ground arith, (ground arith, h)))
]

pub path_escape-Lacks : (name : Bytes) → All IsByte name → Lacks 47 (path_escape name)
unfolding path_escape
path_escape-Lacks [] h = tt
path_escape-Lacks (c ∷ rest) h =
    escape_byte-Lacks c (path_escape rest) h.0 (path_escape-Lacks rest h.1)

pub is_empty-path_escape : (name : Bytes) → is_empty (path_escape name) ≡ is_empty name
unfolding path_escape escape_byte
is_empty-path_escape [] = refl
is_empty-path_escape (c ∷ rest) = ground arith

-- A name that is escaped to dots is dots.
escapes_to :
    (name dots : Bytes)
    → All IsByte name
    → unescape nothing dots ≡ some dots
    → same_bytes name dots ≡ false
    → same_bytes (path_escape name) dots ≡ false
escapes_to name dots h plain other = elim (Bool-cases (same_bytes (path_escape name) dots)) [
  | inl e ↦
      let same = (same_bytes_iff (path_escape name) dots).0 e in
      let back : some name ≡ some dots =
        sym (unescape-path_escape name h) ∙ ap (unescape nothing) same ∙ plain in
      ground (arith, back, other, same_bytes_iff name dots)
  | inr e ↦ e
]

pub is_dot_name-path_escape :
    (name : Bytes)
    → All IsByte name
    → is_dot_name name ≡ false
    → is_dot_name (path_escape name) ≡ false
unfolding is_dot_name unescape
is_dot_name-path_escape name h e =
    ground (arith, e, escapes_to name (codes ".") h refl, escapes_to name (codes "..") h refl)
