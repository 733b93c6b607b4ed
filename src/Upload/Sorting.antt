-- ===== src/Upload/Sorting.antt =====
-- The files by age: what the sort leaves is ordered and has the same contents.
use quixiot.Prelude.{
  ℕ, ◌+◌, ◌≡◌, refl, true, false, List, [], ◌∷◌, Bytes, total, All, arith, Bool-cases, inl, inr,
  All-map,
}
use quixiot.Upload.{UploadFile, string_lt, older, insert_by_age, sort_by_age}

-- No element is older than one in front of it.
abbrev pub Sorted : List UploadFile → Type 0
Sorted [] = Unit
Sorted (f ∷ rest) = All (λ g. older g f ≡ false) rest × Sorted rest

pub string_lt_asymm : (a b : Bytes) → string_lt a b ≡ true → string_lt b a ≡ false
unfolding string_lt
string_lt_asymm [] [] h = ground (arith, h)
string_lt_asymm [] (y ∷ b) h = refl
string_lt_asymm (x ∷ a) [] h = ground (arith, h)
string_lt_asymm (x ∷ a) (y ∷ b) h = ground (arith, h, string_lt_asymm a b)

-- What is not less on either side goes through a chain.
pub string_lt_chain :
    (a b c : Bytes) → string_lt b a ≡ false → string_lt c b ≡ false → string_lt c a ≡ false
unfolding string_lt
string_lt_chain [] b [] h k = refl
string_lt_chain [] [] (z ∷ c) h k = refl
string_lt_chain [] (y ∷ b) (z ∷ c) h k = refl
string_lt_chain (x ∷ a) [] c h k = ground (arith, h)
string_lt_chain (x ∷ a) (y ∷ b) [] h k = ground (arith, k)
string_lt_chain (x ∷ a) (y ∷ b) (z ∷ c) h k = ground (arith, h, k, string_lt_chain a b c)

older_asymm : (f g : UploadFile) → older f g ≡ true → older g f ≡ false
unfolding older
older_asymm f g h = ground (arith, h, string_lt_asymm f.path g.path)

older_chain : (f g k : UploadFile) → older g f ≡ false → older k g ≡ false → older k f ≡ false
unfolding older
older_chain f g k p q = ground (arith, p, q, string_lt_chain f.path g.path k.path)

total-insert_by_age :
    (w : UploadFile → ℕ) (f : UploadFile) (files : List UploadFile)
    → total w (insert_by_age f files) ≡ w f + total w files
unfolding insert_by_age
total-insert_by_age w f [] = refl
total-insert_by_age w f (g ∷ rest) = ground (arith, total-insert_by_age w f rest)

-- The sort keeps the contents, as any weight sees them.
pub total-sort_by_age :
    (w : UploadFile → ℕ) (files : List UploadFile) → total w (sort_by_age files) ≡ total w files
unfolding sort_by_age
total-sort_by_age w [] = refl
total-sort_by_age w (f ∷ rest) =
    omega (arith, total-insert_by_age w f (sort_by_age rest), total-sort_by_age w rest)

insert_by_age-All :
    (x f : UploadFile) (files : List UploadFile)
    → older f x ≡ false
    → All (λ g. older g x ≡ false) files
    → All (λ g. older g x ≡ false) (insert_by_age f files)
unfolding insert_by_age
insert_by_age-All x f [] h k = (h, tt)
insert_by_age-All x f (g ∷ rest) h k = ground (arith, h, k, insert_by_age-All x f rest h k.1)

insert_by_age-Sorted :
    (f : UploadFile) (files : List UploadFile) → Sorted files → Sorted (insert_by_age f files)
unfolding insert_by_age
insert_by_age-Sorted f [] h = (tt, tt)
insert_by_age-Sorted f (g ∷ rest) h = elim (Bool-cases (older g f)) [
  | inl e ↦
      rw e (insert_by_age-All g f rest (older_asymm g f e) h.0, insert_by_age-Sorted f rest h.1)
  | inr e ↦ rw e ((e, All-map (λ k q. older_chain f g k e q) rest h.0), h)
]

pub sort_by_age-Sorted : (files : List UploadFile) → Sorted (sort_by_age files)
unfolding sort_by_age
sort_by_age-Sorted [] = tt
sort_by_age-Sorted (f ∷ rest) = insert_by_age-Sorted f (sort_by_age rest) (sort_by_age-Sorted rest)
