-- ===== src/UploadBody/Whole.antt =====
-- The bytes of an upload's body do not depend on how it is read.
use quixiot.Prelude.{
  length, ℕ, zero, suc, ◌+◌, ◌-◌, ◌≤◌, ◌<◌, ◌≡◌, refl, ap, sym, ◌∙◌, true, false, List, [], ◌∷◌,
  ◌++◌, is_empty, total, ltb, ◌==◌, arith, Bool-cases, inl, inr,
}
use quixiot.UploadBody.{DeterministicReader, drawn, read, copy}

-- The room in some buffers.
abbrev pub room : List ℕ → ℕ
room buffers = total (λ b. b) buffers

filled : (buffers : List ℕ) → 0 < room buffers → is_empty buffers ≡ false
filled [] h = ground (arith, h)
filled (b ∷ more) h = refl

module _ (draws : ℕ → ℕ) where
  drawn-append : (p n k : ℕ) → drawn draws p n ++ drawn draws (p + n) k ≡ drawn draws p (n + k)
  unfolding drawn
  drawn-append p zero k =
      let left : p + 0 ≡ p = omega arith in
      let right : 0 + k ≡ k = omega arith in rw (left, right) refl
  drawn-append p (suc n) k =
      let left : p + suc n ≡ suc p + n = omega arith in
      let right : suc n + k ≡ suc (n + k) = omega arith in
      rw (left, right) (ap (◌∷◌ (draws p)) (drawn-append (suc p) n k))

  pub length-drawn : (position n : ℕ) → length (drawn draws position n) ≡ n
  unfolding drawn
  length-drawn position zero = refl
  length-drawn position (suc n) = ap suc (length-drawn (suc position) n)

  copy_lem :
      (buffers : List ℕ) (r : DeterministicReader)
      → is_empty buffers ≡ false
      → r.remaining ≤ room buffers
      → copy draws buffers r ≡ (drawn draws r.position r.remaining, true)
  unfolding copy read
  copy_lem [] r some_buffer fits = ground (arith, some_buffer)
  copy_lem (buffer ∷ more) r some_buffer fits = elim (Bool-cases (r.remaining == 0)) [
    | inl e ↦
        let z : 0 ≡ r.remaining = ground (arith, e) in
        rw e (ap (λ n. (drawn draws r.position n, true)) z)
    | inr e ↦ elim (Bool-cases (ltb r.remaining buffer)) [
      | inl f ↦
          let all_read : (r.remaining - r.remaining == 0) ≡ true = ground arith in
          rw (e, f, all_read) refl
      | inr f ↦ elim (Bool-cases (r.remaining - buffer == 0)) [
        | inl g ↦
            let z : buffer ≡ r.remaining = ground (arith, f, g) in
            rw (e, f, g) (ap (λ n. (drawn draws r.position n, true)) z)
        | inr g ↦
            let after : DeterministicReader = record {
              remaining = r.remaining - buffer;
              position = r.position + buffer;
            } in
            let ih =
              copy_lem more after (filled more (ground (arith, f, g, fits)))
                (omega (arith, fits)) in
            let whole : buffer + (r.remaining - buffer) ≡ r.remaining = ground (arith, f) in
            let joined =
              drawn-append r.position buffer (r.remaining - buffer)
              ∙ ap (drawn draws r.position) whole in
            rw (e, f, g, ih) (ap (λ x. (x, true)) joined)
      ]
    ]
  ]

-- Read through any buffers, at least one, that have room for the rest of the body together, the reader
-- gives the generator's next bytes, as many as remain, and reports the end. So the body that is sent and
-- the body that was hashed before are the same, however either is cut into buffers.
pub copy_whole :
    (draws : ℕ → ℕ) (buffers others : List ℕ) (r : DeterministicReader)
    → is_empty buffers ≡ false
    → is_empty others ≡ false
    → r.remaining ≤ room buffers
    → r.remaining ≤ room others
    → (copy draws buffers r ≡ (drawn draws r.position r.remaining, true))
      × (copy draws buffers r ≡ copy draws others r)
copy_whole draws buffers others r some_buffer some_other fits fits_other =
    let sent = copy_lem draws buffers r some_buffer fits in
    (sent, sent ∙ sym (copy_lem draws others r some_other fits_other))
