-- ===== src/Impair/Heap/Order.antt =====
-- The heap order, over any type whose `Less` compares a number, its key.
use quixiot.Prelude.{
  ℕ, zero, suc, ◌-◌, ◌/◌, ◌<◌, ◌≤◌, ◌≡◌, Bool, List, [], ◌∷◌, length, ltb, All, arith,
}
use quixiot.Impair.Heap.{less_at}
use quixiot.Impair.Heap.Swap.{key_at, key_at-get, get_elem?-of-lt}

module _ {A : Type 0} (key : A → ℕ) where
  -- Over the first `n` elements, no element has a smaller key than its parent.
  abbrev pub IsHeap : List A → ℕ → Type 0
  IsHeap xs n = (k : ℕ) → 0 < k → k < n → key_at key xs ((k - 1) / 2) ≤ key_at key xs k

  root-le-fuel :
      (fuel : ℕ) (xs : List A) (n k : ℕ)
      → k < fuel
      → k < n
      → IsHeap xs n
      → key_at key xs 0 ≤ key_at key xs k
  root-le-fuel zero xs n k f l h = elim f [ ]
  root-le-fuel (suc fuel) xs n zero f l h = omega arith
  root-le-fuel (suc fuel) xs n (suc k) f l h = omega (
    arith,
    h (suc k) (omega arith) l,
    root-le-fuel fuel xs n ((suc k - 1) / 2) (omega arith) (omega arith) h,
  )

  -- The root has the least key.
  pub root-le : (xs : List A) (n k : ℕ) → k < n → IsHeap xs n → key_at key xs 0 ≤ key_at key xs k
  root-le xs n k = root-le-fuel (suc k) xs n k (omega arith)

  -- A bound on the key at each index is a bound on each element.
  pub All-of-key_at :
      (xs : List A) (b : ℕ)
      → ((k : ℕ) → k < length xs → b ≤ key_at key xs k)
      → All (λ x. b ≤ key x) xs
  All-of-key_at [] b h = tt
  All-of-key_at (x ∷ xs) b h =
      (h 0 (omega arith), All-of-key_at xs b (λ k l. h (suc k) (omega arith)))

module _ {A : Type 0} (less : A → A → Bool) (key : A → ℕ)
    (less_key : (a b : A) → less a b ≡ ltb (key a) (key b)) where
  -- `Less` at two indices in range compares their keys.
  pub less_at-key_at :
      (xs : List A) (i j : ℕ)
      → i < length xs
      → j < length xs
      → less_at less xs i j ≡ ltb (key_at key xs i) (key_at key xs j)
  unfolding less_at
  less_at-key_at xs i j p q =
      let (a, ha) = get_elem?-of-lt xs i p in
      let (b, hb) = get_elem?-of-lt xs j q in
      ground (arith, ha, hb, less_key a b, key_at-get key xs i ha, key_at-get key xs j hb)
