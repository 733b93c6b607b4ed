-- ===== src/Upload/Names.antt =====
-- The names that `sanitizeFilename` returns.
use quixiot.Prelude.{
  ℕ, ◌≡◌, ◌≢◌, refl, true, false, not, ◌||◌, List, [], ◌∷◌, is_empty, length, map, ok, guard,
  >>=-eq-ok, passed_guard, All, subst, arith, Bool-cases, inl, inr,
}
use quixiot.Upload.{
  is_space, trim_left, trim_right, trim_space, contains_separator, is_safe_rune, safe_rune,
  is_dot_name, sanitize_filename, name_required, has_separator, is_dots, no_safe_content,
}

abbrev pub IsSafeName : List ℕ → Type 0
IsSafeName name =
    All (λ r. is_safe_rune r ≡ true) name × (is_empty name ≡ false) × (is_dot_name name ≡ false)

safe_rune_safe : (r : ℕ) → is_safe_rune (safe_rune r) ≡ true
unfolding safe_rune is_safe_rune
safe_rune_safe r = elim (Bool-cases (is_safe_rune r)) [ inl e ↦ rw e e | inr e ↦ rw e refl ]

map_safe : (name : List ℕ) → All (λ r. is_safe_rune r ≡ true) (map safe_rune name)
map_safe [] = tt
map_safe (r ∷ rest) = (safe_rune_safe r, map_safe rest)

map_same : (name : List ℕ) → All (λ r. is_safe_rune r ≡ true) name → map safe_rune name ≡ name
unfolding safe_rune
map_same [] h = refl
map_same (r ∷ rest) h = ground (arith, h.0, map_same rest h.1)

safe_not_space : (r : ℕ) → is_safe_rune r ≡ true → (is_space r ≡ false) × (r ≢ 47) × (r ≢ 92)
unfolding is_safe_rune is_space
safe_not_space r h = ground (arith, h)

trim_left_same : (name : List ℕ) → All (λ r. is_safe_rune r ≡ true) name → trim_left name ≡ name
unfolding trim_left
trim_left_same [] h = refl
trim_left_same (r ∷ rest) h = rw ((safe_not_space r h.0).0) refl

trim_right_same : (name : List ℕ) → All (λ r. is_safe_rune r ≡ true) name → trim_right name ≡ name
unfolding trim_right
trim_right_same [] h = refl
trim_right_same (r ∷ rest) h =
    rw ((safe_not_space r h.0).0, trim_right_same rest h.1) (ground arith)

no_separator :
    (name : List ℕ) → All (λ r. is_safe_rune r ≡ true) name → contains_separator name ≡ false
unfolding contains_separator
no_separator [] h = refl
no_separator (r ∷ rest) h = ground (arith, safe_not_space r h.0, no_separator rest h.1)

-- A name that is safe is kept as it is.
pub sanitize_filename_safe : (name : List ℕ) → IsSafeName name → sanitize_filename name ≡ ok name
unfolding sanitize_filename trim_space
sanitize_filename_safe name (safe, filled, dots) =
    rw
      (
        trim_left_same name safe,
        trim_right_same name safe,
        map_same name safe,
        no_separator name safe,
        filled,
        dots,
      )
      refl

length-map : (f : ℕ → ℕ) (xs : List ℕ) → length (map f xs) ≡ length xs
length-map f [] = refl
length-map f (x ∷ xs) = omega (arith, length-map f xs)

-- A name that `sanitizeFilename` returns consists of ASCII letters, digits, dots, dashes and
-- underscores, is not empty, and is neither "." nor ".."; so it has no path separator. It has as many
-- runes as the name that was asked for, without its outer spaces, and that name had no separator.
-- Given again, it is returned as it is.
pub sanitize_filename-IsSafeName :
    (name safe : List ℕ)
    → sanitize_filename name ≡ ok safe
    → IsSafeName safe
      × (contains_separator safe ≡ false)
      × (contains_separator (trim_space name) ≡ false)
      × (length safe ≡ length (trim_space name))
      × (sanitize_filename safe ≡ ok safe)
unfolding sanitize_filename
sanitize_filename-IsSafeName name safe h =
    let trimmed = trim_space name in
    let made = map safe_rune trimmed in
    let (_, _, e1) = >>=-eq-ok (guard (not (is_empty trimmed)) name_required) _ h in
    let (_, sep, e2) = >>=-eq-ok (guard (not (contains_separator trimmed)) has_separator) _ e1 in
    let (_, _, e3) = >>=-eq-ok (guard (not (is_dot_name trimmed)) is_dots) _ e2 in
    let (_, last, e4) =
      >>=-eq-ok (guard (not (is_empty made || is_dot_name made)) no_safe_content) _ e3 in
    let same : made ≡ safe = ground (arith, e4) in
    let tests = passed_guard _ _ last in
    let safe_name : IsSafeName made =
      (map_safe trimmed, ground (arith, tests), ground (arith, tests)) in
    subst
      (λ n.
        IsSafeName n
        × (contains_separator n ≡ false)
        × (contains_separator trimmed ≡ false)
        × (length n ≡ length trimmed)
        × (sanitize_filename n ≡ ok n))
      same
      (
        safe_name,
        no_separator made safe_name.0,
        ground (arith, passed_guard _ _ sep),
        length-map safe_rune trimmed,
        sanitize_filename_safe made safe_name,
      )
