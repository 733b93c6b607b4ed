-- ===== src/Impair/Heap.antt =====
-- container/heap as internal/impair/pipeline.go uses it: `heap.Push` and `heap.Pop` over a slice,
-- with the slice's `Less`. The sift loops `up` and `down` run on fuel, for which the index they
-- start from, or the length, is enough.
pub mod Swap
pub mod Up
pub mod Down
pub mod Order
pub mod Laws
use quixiot.Prelude.{
  ℕ, zero, suc, ◌+◌, ◌-◌, ◌*◌, ◌/◌, ◌<◌, ◌≤◌, ◌≡◌, Bool, true, false, not, ◌&&◌, ◌||◌, List, [],
  ◌∷◌, ◌++◌, Option, none, some, length, get_elem?, set, take, ltb, leb, ◌==◌, if◌then◌else◌,
}

module _ {A : Type 0} where
  -- `h[i], h[j] = h[j], h[i]`, for indices in range.
  unfoldable pub swap : List A → ℕ → ℕ → List A
  swap xs i j = elim (get_elem? xs i) [
    | none ↦ xs
    | some a ↦ elim (get_elem? xs j) [ none ↦ xs | some b ↦ set (set xs i b) j a ]
  ]

module _ {A : Type 0} (less : A → A → Bool) where
  -- `h.Less(i, j)`.
  unfoldable pub less_at : List A → ℕ → ℕ → Bool
  less_at xs i j = elim (get_elem? xs i) [
    | none ↦ false
    | some a ↦ elim (get_elem? xs j) [ none ↦ false | some b ↦ less a b ]
  ]

  -- The parent of index 0 is 0, as Go's division gives it.
  unfoldable pub up : ℕ → List A → ℕ → List A
  up zero xs j = xs
  up (suc fuel) xs j =
      let i = (j - 1) / 2 in
      let rest = up fuel (swap xs i j) i in if i == j || not (less_at xs j i) then xs else rest

  -- The smaller of the children of index `i`, whose first is `j`.
  unfoldable pub smaller_child : List A → ℕ → ℕ → ℕ
  smaller_child xs j n = if ltb (j + 1) n && less_at xs (j + 1) j then j + 1 else j

  unfoldable pub down : ℕ → List A → ℕ → ℕ → List A
  down zero xs i n = xs
  down (suc fuel) xs i n =
      let j = smaller_child xs (2 * i + 1) n in
      let rest = down fuel (swap xs i j) j n in
      if leb n (2 * i + 1) || not (less_at xs j i) then xs else rest

  unfoldable pub heap_push : A → List A → List A
  heap_push x xs = up (suc (length xs)) (xs ++ x ∷ []) (length xs)

  -- The slice's own `Pop` cuts off its last element.
  pub cut_last : List A → ℕ → Option (A × List A)
  cut_last xs n = elim (get_elem? xs n) [ none ↦ none | some x ↦ some (x, take n xs) ]

  -- `none` where Go would panic, on an empty slice.
  unfoldable pub heap_pop : List A → Option (A × List A)
  unfolding cut_last
  heap_pop xs = let n = length xs - 1 in cut_last (down (suc n) (swap xs 0 n) 0 n) n
