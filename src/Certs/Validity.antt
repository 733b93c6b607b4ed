-- ===== src/Certs/Validity.antt =====
-- When the certificates are valid.
use quixiot.Prelude.{
  ℕ, ◌+◌, ◌-◌, ◌*◌, ◌^◌, ◌≤◌, ◌<◌, ◌≡◌, ◌⊎◌, ◌↔◌, inl, inr, Bool, List, ltb, if◌then◌else◌, arith,
  Bool-cases,
}
use quixiot.Prelude.Int.{pos, negsuc, ◌+ℤ◌, ◌-ℤ◌, ◌≤ℤ◌}
use quixiot.Certs.{hour, ten_years, ca_valid, Certificate, ca_template, leaf_template}

abbrev pub Covers : Certificate → ℕ → Type 0
Covers c t = (c.not_before ≤ℤ pos t) × (pos t ≤ℤ c.not_after)

ca_valid_small :
    (n : ℕ)
    → 10 * n < 2 ^ 63
    → ca_valid n ≡ pos (if ltb ten_years (10 * n) then ten_years else 10 * n)
unfolding ca_valid
ca_valid_small n h = ground arith

ca_valid_wraps :
    (n : ℕ) → 2 ^ 63 ≤ 10 * n → 10 * n < 2 ^ 64 → ca_valid n ≡ negsuc (2 ^ 64 - 1 - 10 * n)
unfolding ca_valid
ca_valid_wraps n h k = ground arith

ends_after : (now k t : ℕ) → (pos t ≤ℤ (pos now +ℤ pos k)) ↔ (t ≤ now + k)
unfolding ◌+ℤ◌
ends_after now k t = (λ h. ground (arith, h), λ h. ground (arith, h))

ends_before : (now k t : ℕ) → now ≤ t → ¬ (pos t ≤ℤ (pos now +ℤ negsuc k))
unfolding ◌+ℤ◌
ends_before now k t h e = ground (arith, h, e)

begins_before : (now t : ℕ) → now ≤ t → (pos now -ℤ pos hour) ≤ℤ pos t
unfolding ◌-ℤ◌
begins_before now t h = ground (arith, h)

module _ (is_ip : List ℕ → Bool) (sans : List (List ℕ)) (now n t : ℕ) (positive : 0 < n)
    (later : now ≤ t) where
  -- From the time on that they are made at, the server's certificate is valid for as long as was asked
  -- for, and the CA's for ten times that, but ten years at most, as long as ten times the validity is an
  -- int64 of nanoseconds. From there on to twice that the CA's is never valid: it ends before it was made.
  pub certificates_cover :
      ((Covers (leaf_template is_ip now n sans) t) ↔ (t ≤ now + n))
      × (((10 * n < 2 ^ 63)
            × (Covers (ca_template now n) t
                ↔ (t ≤ now + (if ltb ten_years (10 * n) then ten_years else 10 * n))))
          ⊎ ((2 ^ 63 ≤ 10 * n) × (10 * n < 2 ^ 64) × (¬ (Covers (ca_template now n) t)))
          ⊎ (2 ^ 64 ≤ 10 * n))
  unfolding ca_template leaf_template
  certificates_cover =
      let begins = begins_before now t later in
      (
        (λ c. let last = c.1 in omega (arith, last), λ h. (begins, omega (arith, h))),
        elim (Bool-cases (ltb (10 * n) (2 ^ 63))) [
          | inl small ↦
              let whole : 10 * n < 2 ^ 63 = ground (arith, small) in
              inl (
                whole,
                rw (ca_valid_small n whole)
                    ((λ c. (ends_after now _ t).0 c.1), λ h. (begins, (ends_after now _ t).1 h)),
              )
          | inr large ↦ elim (Bool-cases (ltb (10 * n) (2 ^ 64))) [
            | inl wraps ↦
                let low : 2 ^ 63 ≤ 10 * n = ground (arith, large) in
                let high : 10 * n < 2 ^ 64 = ground (arith, wraps) in
                inr (
                  inl (
                    low,
                    high,
                    rw (ca_valid_wraps n low high) (λ c. ends_before now _ t later c.1),
                  ))
            | inr far ↦ inr (inr (ground (arith, far)))
          ]
        ],
      )
