-- ===== src/Impair/Heap/Laws.antt =====
-- `heap.Pop` takes the root, which has the least key, and keeps the rest in heap order.
use quixiot.Prelude.{
  ℕ, zero, suc, ◌+◌, ◌-◌, ◌/◌, ◌<◌, ◌≤◌, ◌≡◌, refl, ap, ◌∙◌, Bool, List, [], ◌∷◌, some, length,
  length-take, get_elem?, take, total, ltb, leb, leb→le, le→leb, if◌then◌else◌, arith, All, All-map,
  All-of-contents,
}
use quixiot.Impair.Heap.{swap, down, heap_pop, cut_last}
use quixiot.Impair.Heap.Swap.{key_at, length-swap, total-swap, key_at-swap, get_elem?-swap}
use quixiot.Impair.Heap.Order.{IsHeap, root-le, All-of-key_at}
use quixiot.Impair.Heap.Down.{IsHeapBelow, down_lem}

module _ {A : Type 0} where
  key_at-take :
      (key : A → ℕ) (n : ℕ) (xs : List A) (k : ℕ)
      → k < n
      → key_at key (take n xs) k ≡ key_at key xs k
  key_at-take key zero xs k h = elim h [ ]
  key_at-take key (suc n) [] k h = refl
  key_at-take key (suc n) (x ∷ xs) zero h = refl
  key_at-take key (suc n) (x ∷ xs) (suc k) h = key_at-take key n xs k (omega arith)

  total-take :
      (w : A → ℕ) (n : ℕ) (xs : List A) {a : A}
      → length xs ≡ suc n
      → get_elem? xs n ≡ some a
      → w a + total w (take n xs) ≡ total w xs
  total-take w n [] l e = cc
  total-take w zero (x ∷ []) l e = ground arith
  total-take w zero (x ∷ y ∷ xs) l e = absurd (omega arith)
  total-take w (suc n) (x ∷ xs) l e = omega (arith, total-take w n xs (omega arith) e)

module _ {A : Type 0} where
  -- The first step of `heap.Pop` puts the root last.
  root_last : (x : A) (xs : List A) → get_elem? (swap (x ∷ xs) 0 (length xs)) (length xs) ≡ some x
  unfolding swap
  root_last x [] = refl
  root_last x (y ∷ xs) =
      get_elem?-swap (x ∷ y ∷ xs) 0 (suc (length xs)) (suc (length xs)) (omega arith) (omega arith)
      ∙ ground arith

-- What `heap.Pop` makes of a slice in heap order: its root `x`, and the rest.
pub record Pops {A : Type 0} (key : A → ℕ) (x : A) (xs rest : List A) : Type 0 where
  pub ordered : IsHeap key rest (length rest)
  pub shorter : length rest ≡ length xs
  pub contents : (w : A → ℕ) → total w rest ≡ total w xs
  pub least : All (λ y. key x ≤ key y) rest

module _ {A : Type 0} (less : A → A → Bool) (key : A → ℕ)
    (less_key : (a b : A) → less a b ≡ ltb (key a) (key b)) where
  heap_pop-cut_last :
      (x : A) (xs : List A)
      → heap_pop less (x ∷ xs)
        ≡ cut_last less
            (down less (suc (length xs)) (swap (x ∷ xs) 0 (length xs)) 0 (length xs))
            (length xs)
  unfolding heap_pop
  heap_pop-cut_last x xs =
      let front : length (x ∷ xs) - 1 ≡ length xs = omega arith in
      ap (λ n. cut_last less (down less (suc n) (swap (x ∷ xs) 0 n) 0 n) n) front

  pub heap_pop_lem :
      (x : A) (xs : List A)
      → IsHeap key (x ∷ xs) (length (x ∷ xs))
      → (rest : List A) × (heap_pop less (x ∷ xs) ≡ some (x, rest)) × Pops key x xs rest
  unfolding heap_pop
  heap_pop_lem x xs h =
      let n = length xs in
      let all = x ∷ xs in
      let swapped = swap all 0 n in
      let l0 : 0 < length all = omega arith in
      let ln : n < length all = omega arith in
      let below : IsHeapBelow key swapped 0 n = record {
        in_range = omega (arith, length-swap all 0 n l0 ln);
        others = λ k pk lk ne. ground (
          arith,
          h k pk (omega arith),
          key_at-swap key all 0 n k l0 ln,
          key_at-swap key all 0 n ((k - 1) / 2) l0 ln,
        );
        children = λ k pk lk par none. absurd (omega arith);
      } in
      let (heap, keep) = down_lem less key less_key (suc n) swapped 0 n (omega arith) below in
      let ys = down less (suc n) swapped 0 n in
      let rest = take n ys in
      let last : get_elem? ys n ≡ some x = keep.same_beyond n (omega arith) ∙ root_last x xs in
      let long : length ys ≡ suc n = keep.same_length ∙ length-swap all 0 n l0 ln in
      let len : length rest ≡ n = omega (arith, length-take n ys, long) in
      let contents = λ (w : A → ℕ).
        let t : total w rest ≡ total w xs =
          omega (
            arith,
            total-take w n ys long last,
            keep.same_contents w,
            total-swap w all 0 n l0 ln,
          ) in
        t in
      (
        rest,
        heap_pop-cut_last x xs ∙ rw (last, cut_last),
        record {
          ordered = λ k pk lk. omega (
            arith,
            heap k pk (omega (arith, len)),
            key_at-take key n ys k (omega (arith, len)),
            key_at-take key n ys ((k - 1) / 2) (omega (arith, len)),
          );
          shorter = len;
          contents = contents;
          least =
              All-map (λ y. leb→le (key x) (key y)) rest
                (All-of-contents (λ y. leb (key x) (key y)) xs rest
                  (omega (arith, contents (λ y. if leb (key x) (key y) then 0 else 1)))
                  (All-map (λ y. le→leb (key x) (key y)) xs
                    (All-of-key_at key xs (key x)
                      (λ k lk. root-le key all (suc n) (suc k) (omega arith) h))));
        },
      )
