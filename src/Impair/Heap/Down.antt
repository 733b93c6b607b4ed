-- ===== src/Impair/Heap/Down.antt =====
-- `down` restores the heap order below the index it starts from, among the first `n` elements.
use quixiot.Prelude.{
  ℕ, zero, suc, ◌+◌, ◌-◌, ◌/◌, ◌*◌, ◌<◌, ◌≤◌, ◌≡◌, ◌≢◌, refl, ◌∙◌, Bool, List, length, get_elem?,
  total, ltb, leb, arith, inl, inr, ◌⊎◌, Bool-cases,
}
use quixiot.Impair.Heap.{swap, less_at, down, smaller_child}
use quixiot.Impair.Heap.Swap.{key_at, length-swap, total-swap, key_at-swap, get_elem?-swap}
use quixiot.Impair.Heap.Order.{IsHeap, less_at-key_at}

module _ {A : Type 0} (key : A → ℕ) where
  -- The order holds but perhaps between `i` and its children, and those are in order with the
  -- parent of `i`.
  pub record IsHeapBelow (xs : List A) (i n : ℕ) : Type 0 where
    pub in_range : n ≤ length xs
    pub others :
        (k : ℕ) → 0 < k → k < n → (k - 1) / 2 ≢ i → key_at key xs ((k - 1) / 2) ≤ key_at key xs k
    pub children :
        (k : ℕ)
        → 0 < k
        → k < n
        → (k - 1) / 2 ≡ i
        → 0 < i
        → key_at key xs ((i - 1) / 2) ≤ key_at key xs k

  -- `j` is a child of `i`, with the least key of the children.
  record IsLeastChild (xs : List A) (i j n : ℕ) : Type 0 where
    pos_j : 0 < j
    parent : (j - 1) / 2 ≡ i
    below : j < n
    least : (k : ℕ) → 0 < k → k < n → (k - 1) / 2 ≡ i → key_at key xs j ≤ key_at key xs k

  step_down :
      (xs : List A) (i j n : ℕ)
      → IsHeapBelow xs i n
      → IsLeastChild xs i j n
      → key_at key xs j < key_at key xs i
      → IsHeapBelow (swap xs i j) j n
  step_down xs i j n h c lt =
      let li : i < length xs = omega (arith, h.in_range, c.pos_j, c.parent, c.below) in
      let lj : j < length xs = omega (arith, h.in_range, c.below) in
      let same = length-swap xs i j li lj in
      let at = λ (k : ℕ). key_at-swap key xs i j k li lj in
      record {
        in_range = omega (arith, same, h.in_range);
        others = λ k pk lk ne. ground (
          arith,
          at k,
          at ((k - 1) / 2),
          h.others k,
          h.children k,
          h.children j,
          c.least k,
          c.parent,
          c.pos_j,
          c.below,
          lt,
        );
        children = λ k pk lk par pj.
            ground (arith, at k, at ((j - 1) / 2), h.others k, c.least k, c.parent, c.pos_j, lt);
      }

module _ {A : Type 0} (less : A → A → Bool) (key : A → ℕ)
    (less_key : (a b : A) → less a b ≡ ltb (key a) (key b)) where
  smaller_child-IsLeastChild :
      (xs : List A) (i n : ℕ)
      → n ≤ length xs
      → 2 * i + 1 < n
      → IsLeastChild key xs i (smaller_child less xs (2 * i + 1) n) n
  unfolding smaller_child
  smaller_child-IsLeastChild xs i n range h =
      let c = 2 * i + 1 in
      let first : c < length xs = omega (arith, range) in
      elim (Bool-cases (ltb (c + 1) n)) [
        | inl two ↦
            let test = less_at-key_at less key less_key xs (c + 1) c (ground arith) first in
            record {
              pos_j = ground arith;
              parent = ground arith;
              below = ground arith;
              least = λ k pk lk par.
                  let which : (k ≡ c) ⊎ (k ≡ c + 1) = omega arith in
                  elim which [
                    | inl e ↦ rw e (ground (arith, test))
                    | inr e ↦ rw e (ground (arith, test))
                  ];
            }
        | inr one ↦ record {
          pos_j = ground arith;
          parent = ground arith;
          below = ground arith;
          least = λ k pk lk par. let same : k ≡ c = ground arith in rw one (rw same (omega arith));
        }
      ]

  -- What `down` keeps, apart from the order.
  pub record Keeps (xs ys : List A) (n : ℕ) : Type 0 where
    pub same_length : length ys ≡ length xs
    pub same_contents : (w : A → ℕ) → total w ys ≡ total w xs
    pub same_beyond : (k : ℕ) → n ≤ k → get_elem? ys k ≡ get_elem? xs k

  pub down_lem :
      (fuel : ℕ) (xs : List A) (i n : ℕ)
      → n < i + fuel
      → IsHeapBelow key xs i n
      → IsHeap key (down less fuel xs i n) n × Keeps xs (down less fuel xs i n) n
  unfolding down
  down_lem zero xs i n f h = (
    λ k pk lk. h.others k pk lk (λ e. omega arith),
    record { same_length = refl; same_contents = λ w. refl; same_beyond = λ k l. refl },
  )
  down_lem (suc fuel) xs i n f h =
      let kept : Keeps xs xs n = record {
        same_length = refl;
        same_contents = λ w. refl;
        same_beyond = λ k l. refl;
      } in
      elim (Bool-cases (leb n (2 * i + 1))) [
        | inl leaf ↦ rw leaf (λ k pk lk. h.others k pk lk (λ e. absurd (ground arith)), kept)
        | inr inner ↦
            let j = smaller_child less xs (2 * i + 1) n in
            let c = smaller_child-IsLeastChild xs i n h.in_range (ground arith) in
            let li : i < length xs = omega (arith, h.in_range, c.pos_j, c.parent, c.below) in
            let lj : j < length xs = omega (arith, h.in_range, c.below) in
            let test = less_at-key_at less key less_key xs j i lj li in
            elim (Bool-cases (less_at less xs j i)) [
              | inl go ↦
                  let lt : key_at key xs j < key_at key xs i = ground (arith, go, test) in
                  let (heap, keep) =
                    down_lem fuel (swap xs i j) j n (omega (arith, f, c.pos_j, c.parent))
                      (step_down key xs i j n h c lt) in
                  rw (inner, go)
                    (
                      heap,
                      record {
                        same_length = keep.same_length ∙ length-swap xs i j li lj;
                        same_contents = λ w. keep.same_contents w ∙ total-swap w xs i j li lj;
                        same_beyond = λ k l.
                            keep.same_beyond k l
                            ∙ (get_elem?-swap xs i j k li lj
                                ∙ ground (arith, c.below, c.parent, c.pos_j));
                      },
                    )
              | inr stop ↦
                  rw (inner, stop)
                    (λ k pk lk. ground (arith, test, stop, h.others k, c.least k), kept)
            ]
      ]
