-- ===== src/Impair/Heap/Up.antt =====
-- `up` restores the heap order above the index it starts from.
use quixiot.Prelude.{
  ℕ, zero, suc, ◌+◌, ◌-◌, ◌/◌, ◌<◌, ◌≤◌, ◌≡◌, ◌≢◌, refl, ◌∙◌, Bool, not, ◌||◌, ◌++◌, length-append,
  total-append, List, [], ◌∷◌, length, total, ltb, ◌==◌, arith, inl, inr, Bool-cases,
}
use quixiot.Impair.Heap.{swap, less_at, up, heap_push}
use quixiot.Impair.Heap.Swap.{key_at, length-swap, total-swap, key_at-swap}
use quixiot.Impair.Heap.Order.{IsHeap, less_at-key_at}

module _ {A : Type 0} (key : A → ℕ) where
  -- The order holds but perhaps between `j` and its parent, and the children of `j` are in order
  -- with that parent.
  record IsHeapAbove (xs : List A) (j : ℕ) : Type 0 where
    in_range : j < length xs
    others : (k : ℕ) → 0 < k → k < length xs → k ≢ j → key_at key xs ((k - 1) / 2) ≤ key_at key xs k
    children :
        (k : ℕ)
        → 0 < k
        → k < length xs
        → (k - 1) / 2 ≡ j
        → 0 < j
        → key_at key xs ((j - 1) / 2) ≤ key_at key xs k

  step_up :
      (xs : List A) (j : ℕ)
      → IsHeapAbove xs j
      → 0 < j
      → key_at key xs j < key_at key xs ((j - 1) / 2)
      → IsHeapAbove (swap xs ((j - 1) / 2) j) ((j - 1) / 2)
  step_up xs j h pos_j lt =
      let i = (j - 1) / 2 in
      let li : i < length xs = omega (arith, h.in_range) in
      let same = length-swap xs i j li h.in_range in
      let at = λ (k : ℕ). key_at-swap key xs i j k li h.in_range in
      record {
        in_range = omega (arith, same, li);
        others = λ k pk lk ne.
            ground (arith, at k, at ((k - 1) / 2), h.others k, h.children k, same, lt);
        children = λ k pk lk par pi.
            ground (arith, at k, at ((i - 1) / 2), h.others k, h.others i, same, lt, li);
      }

module _ {A : Type 0} (less : A → A → Bool) (key : A → ℕ)
    (less_key : (a b : A) → less a b ≡ ltb (key a) (key b)) where
  up_lem :
      (fuel : ℕ) (xs : List A) (j : ℕ) (w : A → ℕ)
      → j < fuel
      → IsHeapAbove key xs j
      → IsHeap key (up less fuel xs j) (length xs)
        × (length (up less fuel xs j) ≡ length xs)
        × (total w (up less fuel xs j) ≡ total w xs)
  unfolding up
  up_lem zero xs j w f h = elim f [ ]
  up_lem (suc fuel) xs j w f h =
      let i = (j - 1) / 2 in
      let li : i < length xs = omega (arith, h.in_range) in
      let test = less_at-key_at less key less_key xs j i h.in_range li in
      elim (Bool-cases (i == j || not (less_at less xs j i))) [
        | inl stop ↦ rw stop (λ k pk lk. ground (arith, test, stop, h.others k), refl, refl)
        | inr go ↦
            let pos_j : 0 < j = ground (arith, go) in
            let lt : key_at key xs j < key_at key xs i = ground (arith, go, test) in
            let same = length-swap xs i j li h.in_range in
            let (heap, len, tot) =
              up_lem fuel (swap xs i j) i w (omega (arith, f, pos_j))
                (step_up key xs j h pos_j lt) in
            rw go (rw same at heap, len ∙ same, tot ∙ total-swap w xs i j li h.in_range)
      ]

module _ {A : Type 0} (key : A → ℕ) where
  key_at-concat :
      (xs : List A) (x : A) (k : ℕ) → k < length xs → key_at key (xs ++ x ∷ []) k ≡ key_at key xs k
  key_at-concat [] x k h = elim h [ ]
  key_at-concat (y ∷ xs) x zero h = refl
  key_at-concat (y ∷ xs) x (suc k) h = key_at-concat xs x k (omega arith)

module _ {A : Type 0} (less : A → A → Bool) (key : A → ℕ)
    (less_key : (a b : A) → less a b ≡ ltb (key a) (key b)) where
  -- `heap.Push` adds just the new element and keeps the heap order.
  pub heap_push_lem :
      (x : A) (xs : List A) (w : A → ℕ)
      → IsHeap key xs (length xs)
      → IsHeap key (heap_push less x xs) (length (heap_push less x xs))
        × (length (heap_push less x xs) ≡ suc (length xs))
        × (total w (heap_push less x xs) ≡ w x + total w xs)
  unfolding heap_push
  heap_push_lem x xs w h =
      let n = length xs in
      let ys = xs ++ x ∷ [] in
      let long : length ys ≡ suc n = omega (arith, length-append xs (x ∷ [])) in
      let above : IsHeapAbove key ys n = record {
        in_range = omega (arith, long);
        others = λ k pk lk ne.
            let l : k < n = omega (arith, long) in
            omega (
              arith,
              h k pk l,
              key_at-concat key xs x k l,
              key_at-concat key xs x ((k - 1) / 2) (omega arith),
            );
        children = λ k pk lk par pj. absurd (omega (arith, long));
      } in
      let (heap, len, tot) = up_lem less key less_key (suc n) ys n w (omega arith) above in
      (rw len heap, len ∙ long, omega (arith, tot, total-append w xs (x ∷ [])))
