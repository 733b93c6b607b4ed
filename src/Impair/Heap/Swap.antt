-- ===== src/Impair/Heap/Swap.antt =====
-- What an exchange of two elements does to the keys and to the contents of a slice.
use quixiot.Prelude.{
  ℕ, zero, suc, ◌+◌, ◌<◌, ◌≡◌, refl, ◌∙◌, List, [], ◌∷◌, some, length, get_elem?, set, total, ◌==◌,
  if◌then◌else◌, arith,
}
use quixiot.Impair.Heap.{swap}

module _ {A : Type 0} (key : A → ℕ) where
  -- The key at an index; 0 out of range.
  abbrev pub key_at : List A → ℕ → ℕ
  key_at [] k = 0
  key_at (x ∷ xs) zero = key x
  key_at (x ∷ xs) (suc k) = key_at xs k

  pub key_at-get : (xs : List A) (k : ℕ) {a : A} → get_elem? xs k ≡ some a → key_at xs k ≡ key a
  key_at-get [] k e = ground arith
  key_at-get (x ∷ xs) zero e = ground arith
  key_at-get (x ∷ xs) (suc k) e = key_at-get xs k e

  key_at-set :
      (xs : List A) (i k : ℕ) (v : A)
      → i < length xs
      → key_at (set xs i v) k ≡ (if k == i then key v else key_at xs k)
  key_at-set [] i k v h = elim h [ ]
  key_at-set (x ∷ xs) zero zero v h = refl
  key_at-set (x ∷ xs) zero (suc k) v h = ground arith
  key_at-set (x ∷ xs) (suc i) zero v h = ground arith
  key_at-set (x ∷ xs) (suc i) (suc k) v h = ground (arith, key_at-set xs i k v)

module _ {A : Type 0} where
  pub length-set : (xs : List A) (i : ℕ) (v : A) → length (set xs i v) ≡ length xs
  length-set [] i v = refl
  length-set (x ∷ xs) zero v = refl
  length-set (x ∷ xs) (suc i) v = omega (arith, length-set xs i v)

  -- An index in range has an element.
  pub get_elem?-of-lt : (xs : List A) (i : ℕ) → i < length xs → (a : A) × (get_elem? xs i ≡ some a)
  get_elem?-of-lt [] i h = elim h [ ]
  get_elem?-of-lt (x ∷ xs) zero h = (x, refl)
  get_elem?-of-lt (x ∷ xs) (suc i) h = get_elem?-of-lt xs i (omega arith)

  swap-eq-set :
      (xs : List A) (i j : ℕ) {a b : A}
      → get_elem? xs i ≡ some a
      → get_elem? xs j ≡ some b
      → swap xs i j ≡ set (set xs i b) j a
  unfolding swap
  swap-eq-set xs i j p q = ground arith

  pub length-swap :
      (xs : List A) (i j : ℕ) → i < length xs → j < length xs → length (swap xs i j) ≡ length xs
  length-swap xs i j p q =
      let (a, ha) = get_elem?-of-lt xs i p in
      let (b, hb) = get_elem?-of-lt xs j q in
      rw (swap-eq-set xs i j ha hb) (length-set (set xs i b) j a ∙ length-set xs i b)

  total-set :
      (w : A → ℕ) (xs : List A) (i : ℕ) (v : A) {a : A}
      → get_elem? xs i ≡ some a
      → total w (set xs i v) + w a ≡ total w xs + w v
  total-set w [] i v e = cc
  total-set w (x ∷ xs) zero v e = ground arith
  total-set w (x ∷ xs) (suc i) v e = omega (arith, total-set w xs i v e)

  get_elem?-set :
      (xs : List A) (i k : ℕ) (v : A)
      → i < length xs
      → get_elem? (set xs i v) k ≡ (if k == i then some v else get_elem? xs k)
  get_elem?-set [] i k v h = elim h [ ]
  get_elem?-set (x ∷ xs) zero zero v h = refl
  get_elem?-set (x ∷ xs) zero (suc k) v h = ground arith
  get_elem?-set (x ∷ xs) (suc i) zero v h = ground arith
  get_elem?-set (x ∷ xs) (suc i) (suc k) v h = ground (arith, get_elem?-set xs i k v)

  -- An exchange keeps the contents.
  pub total-swap :
      (w : A → ℕ) (xs : List A) (i j : ℕ)
      → i < length xs
      → j < length xs
      → total w (swap xs i j) ≡ total w xs
  total-swap w xs i j p q =
      let (a, ha) = get_elem?-of-lt xs i p in
      let (b, hb) = get_elem?-of-lt xs j q in
      rw (swap-eq-set xs i j ha hb) (
        ground (
          arith,
          ha,
          hb,
          total-set w xs i b ha,
          total-set w (set xs i b) j a {a = if j == i then b else b},
          get_elem?-set xs i j b p,
        ))

module _ {A : Type 0} where
  -- The elements after an exchange.
  pub get_elem?-swap :
      (xs : List A) (i j k : ℕ)
      → i < length xs
      → j < length xs
      → get_elem? (swap xs i j) k
        ≡ (if k == i then get_elem? xs j else if k == j then get_elem? xs i else get_elem? xs k)
  get_elem?-swap xs i j k p q =
      let (a, ha) = get_elem?-of-lt xs i p in
      let (b, hb) = get_elem?-of-lt xs j q in
      rw (swap-eq-set xs i j ha hb) (
        ground (
          arith,
          ha,
          hb,
          get_elem?-set xs i k b p,
          get_elem?-set (set xs i b) j k a (omega (arith, length-set xs i b)),
        ))

  pub key_at-swap :
      (key : A → ℕ) (xs : List A) (i j k : ℕ)
      → i < length xs
      → j < length xs
      → key_at key (swap xs i j) k
        ≡ (if k == i then key_at key xs j else if k == j then key_at key xs i else key_at key xs k)
  key_at-swap key xs i j k p q =
      let (a, ha) = get_elem?-of-lt xs i p in
      let (b, hb) = get_elem?-of-lt xs j q in
      rw (swap-eq-set xs i j ha hb) (
        ground (
          arith,
          key_at-get key xs i ha,
          key_at-get key xs j hb,
          key_at-set key xs i k b p,
          key_at-set key (set xs i b) j k a (omega (arith, length-set xs i b)),
        ))
