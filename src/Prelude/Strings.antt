-- ===== src/Prelude/Strings.antt =====
-- Go strings as byte lists: ASCII literals, equality, and maps with string keys.
use Prim.Native.Char.{code}
use Prim.Native.String.{String}
use quixiot.Prelude.Tests.{◌==◌, if◌then◌else◌}
use quixiot.Prelude.Lists.{Bytes}
use Prim.Native.Nat.{ℕ}
use mathlib.Core.Path.{◌≡◌, ap, sym, ◌∙◌}
use mathlib.Core.Logic.{◌↔◌}
use mathlib.Core.Bool.{Bool, true, false, ◌&&◌}
use mathlib.Core.List.{List, [], ◌∷◌, ◌++◌, append-nil, append_assoc}
use native.Mathlib.Omega.{arith}

-- The bytes of an ASCII literal.
abbrev pub codes : String → Bytes
codes String.[] = []
codes (String.◌∷◌ c s) = code c ∷ codes s

-- Equality of two strings.
unfoldable pub same_bytes : Bytes → Bytes → Bool
same_bytes [] [] = true
same_bytes (x ∷ xs) (y ∷ ys) = x == y && same_bytes xs ys
same_bytes _ _ = false

pub same_bytes_iff : (a b : Bytes) → (same_bytes a b ≡ true) ↔ (a ≡ b)
unfolding same_bytes
same_bytes_iff [] [] = ground arith
same_bytes_iff (x ∷ a) (y ∷ b) = ground (arith, same_bytes_iff a b)
same_bytes_iff _ _ = ground arith

-- `m[k] = v` on a map with string keys.
abbrev pub update {ℓ} : {V : Type ℓ} → (Bytes → V) → Bytes → V → Bytes → V
update m k v j = if same_bytes k j then v else m j

-- `strings.Split` at a byte or a rune, behind the word that was begun.
unfoldable pub split_at : ℕ → Bytes → Bytes → List Bytes
split_at sep word [] = word ∷ []
split_at sep word (c ∷ rest) =
    let here = word ∷ split_at sep [] rest in
    let on = split_at sep (word ++ c ∷ []) rest in if c == sep then here else on

-- No separator in a list.
abbrev pub Lacks : ℕ → Bytes → Type 0
Lacks sep [] = Unit
Lacks sep (c ∷ rest) = ((c == sep) ≡ false) × Lacks sep rest

module _ (sep : ℕ) where
  pub split_at_last : (word xs : Bytes) → Lacks sep xs → split_at sep word xs ≡ (word ++ xs) ∷ []
  unfolding split_at
  split_at_last word [] h = ap (λ w. w ∷ []) (sym (append-nil word))
  split_at_last word (c ∷ xs) h =
      rw h.0
        (split_at_last (word ++ c ∷ []) xs h.1 ∙ ap (λ w. w ∷ []) (append_assoc word (c ∷ []) xs))

  pub split_at_first :
      (word xs rest : Bytes)
      → Lacks sep xs
      → split_at sep word (xs ++ (sep ∷ rest)) ≡ (word ++ xs) ∷ split_at sep [] rest
  unfolding split_at
  split_at_first word [] rest h =
      let same : (sep == sep) ≡ true = ground arith in
      rw same (ap (λ w. w ∷ split_at sep [] rest) (sym (append-nil word)))
  split_at_first word (c ∷ xs) rest h = rw h.0 (
      split_at_first (word ++ c ∷ []) xs rest h.1
      ∙ ap (λ w. w ∷ split_at sep [] rest) (append_assoc word (c ∷ []) xs))
