-- ===== src/Broker/Members.antt =====
-- The sets of sessions, as lists with no repetition.
use quixiot.Prelude.{
  ℕ, suc, ◌+◌, ◌≡◌, refl, true, false, List, [], ◌∷◌, Option, none, some, length, is_empty, ◌==◌,
  if◌then◌else◌, arith, Bool-cases, inl, inr,
}
use quixiot.Broker.{is_member, insert_member, remove_member, members_of, without}

abbrev pub Distinct : List ℕ → Type 0
Distinct [] = Unit
Distinct (x ∷ xs) = (is_member x xs ≡ false) × Distinct xs

pub is_member-insert_member :
    (s r : ℕ) (xs : List ℕ)
    → is_member r (insert_member s xs) ≡ (if s == r then true else is_member r xs)
unfolding insert_member is_member
is_member-insert_member s r xs = elim (Bool-cases (is_member s xs)) [
  | inl old ↦ rw old (elim (Bool-cases (s == r)) [
    | inl same ↦ let e : s ≡ r = ground arith in rw same (rw e at old)
    | inr other ↦ rw other
  ])
  | inr new ↦ rw new (ground arith)
]

pub is_member-remove_member :
    (s r : ℕ) (xs : List ℕ)
    → is_member r (remove_member s xs) ≡ (if s == r then false else is_member r xs)
unfolding remove_member is_member
is_member-remove_member s r [] = ground arith
is_member-remove_member s r (x ∷ xs) = ground (arith, is_member-remove_member s r xs)

pub insert_member_new :
    (s : ℕ) (xs : List ℕ)
    → is_member s xs ≡ false
    → Distinct xs
    → (length (insert_member s xs) ≡ suc (length xs)) × Distinct (insert_member s xs)
unfolding insert_member
insert_member_new s xs new d = ground arith

remove_member_absent : (s : ℕ) (xs : List ℕ) → is_member s xs ≡ false → remove_member s xs ≡ xs
unfolding remove_member is_member
remove_member_absent s [] h = refl
remove_member_absent s (x ∷ xs) h = ground (arith, remove_member_absent s xs)

-- A removal takes one element off, if it is there.
pub length-remove_member :
    (s : ℕ) (xs : List ℕ)
    → Distinct xs
    → length xs ≡ (if is_member s xs then 1 else 0) + length (remove_member s xs)
unfolding remove_member is_member
length-remove_member s [] d = refl
length-remove_member s (x ∷ xs) d =
    ground (arith, length-remove_member s xs d.1, remove_member_absent s xs)

pub remove_member-Distinct : (s : ℕ) (xs : List ℕ) → Distinct xs → Distinct (remove_member s xs)
unfolding remove_member
remove_member-Distinct s [] d = tt
remove_member-Distinct s (x ∷ xs) d =
    ground (arith, remove_member-Distinct s xs d.1, is_member-remove_member s x xs)

-- A topic's set when a session leaves it: the set is gone when it is empty.
abbrev pub IsFilled : Option (List ℕ) → Type 0
IsFilled none = Unit
IsFilled (some xs) = is_empty xs ≡ false

kept_set : List ℕ → Option (List ℕ)
kept_set xs = if is_empty xs then none else some xs

kept_set_lem : (xs : List ℕ) → (members_of (kept_set xs) ≡ xs) × IsFilled (kept_set xs)
unfolding kept_set
kept_set_lem [] = (refl, tt)
kept_set_lem (x ∷ xs) = (refl, refl)

pub members_of-without :
    (s : ℕ) (o : Option (List ℕ)) → members_of (without s o) ≡ remove_member s (members_of o)
unfolding without remove_member kept_set
members_of-without s none = refl
members_of-without s (some xs) = (kept_set_lem (remove_member s xs)).0

pub without-IsFilled : (s : ℕ) (o : Option (List ℕ)) → IsFilled (without s o)
unfolding without kept_set
without-IsFilled s none = tt
without-IsFilled s (some xs) = (kept_set_lem (remove_member s xs)).1
