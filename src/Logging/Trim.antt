-- ===== src/Logging/Trim.antt =====
-- What is left of a log record that is too long.
use quixiot.Prelude.{
  ℕ, ◌+◌, ◌-◌, ◌≤◌, ◌<◌, ◌≡◌, refl, false, [], ◌++◌, Bytes, length, drop, leb, ◌==◌, if◌then◌else◌,
  length-append, length-drop, arith, Bool-cases, inl, inr,
}
use quixiot.Logging.{trim_record, truncated_mark}

-- `t` is the end of `p`, behind the mark or behind nothing.
pub record IsTail (p t front : Bytes) : Type 0 where
  pub kept : ℕ
  pub split : t ≡ front ++ drop (length p - kept) p
  pub all_kept : length t ≡ length front + kept

-- Under a positive bound, a record that fits is kept. Of one that does not, as many bytes as the bound
-- says are left: its end behind the mark, where there is room for more than the mark, and its end alone
-- where there is not.
pub trim_record_fits :
    (p : Bytes) (max : ℕ)
    → 0 < max
    → (length p ≤ max → trim_record p max ≡ p)
      × (max < length p
          → (length (trim_record p max) ≡ max)
            × IsTail p
                (trim_record p max)
                (if leb max (length truncated_mark) then [] else truncated_mark))
unfolding trim_record
trim_record_fits p max positive = elim (Bool-cases (leb (length p) max)) [
  | inl e ↦ (λ _. ground (arith, e), λ h. ground (arith, e, h))
  | inr e ↦
      let on : (max == 0) ≡ false = ground (arith, positive) in
      (
        λ h. ground (arith, e, h),
        λ h. elim (Bool-cases (leb max (length truncated_mark))) [
          | inl s ↦
              let n : length (drop (length p - max) p) ≡ max =
                omega (arith, length-drop (length p - max) p, h) in
              rw (on, e, s) (n, record { kept = max; split = refl; all_kept = omega (arith, n) })
          | inr s ↦
              let k = max - length truncated_mark in
              let long : length truncated_mark < max = ground (arith, s) in
              let n : length (drop (length p - k) p) ≡ k =
                omega (arith, length-drop (length p - k) p, h) in
              let l = length-append truncated_mark (drop (length p - k) p) in
              rw (on, e, s)
                (
                  omega (arith, l, n, long),
                  record { kept = k; split = refl; all_kept = omega (arith, l, n) },
                )
        ],
      )
]
