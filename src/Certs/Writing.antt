-- ===== src/Certs/Writing.antt =====
-- The SANs of the server's certificate, and the files.
use quixiot.Prelude.{
  ℕ, ◌+◌, ◌≡◌, ◌⊎◌, inl, inr, refl, ap, ◌∙◌, Bool, true, false, List, [], ◌∷◌, Bytes, Option, some,
  total, arith, Bool-cases, if_elim, Result-cases,
}
use quixiot.Prelude.Strings.{same_bytes, same_bytes_iff, update}
use quixiot.Prelude.Int.{ℤ, pos_part}
use quixiot.Certs.{
  Issuing, check_request, pem_files, generate_local, select, Files, PemAnswers, Pem, write_pem,
  write_all_pem,
}

-- Each SAN goes to one of the two lists, as often as it is given.
pub select_splits :
    (is_ip : List ℕ → Bool) (w : List ℕ → ℕ) (sans : List (List ℕ))
    → total w (select is_ip true sans) + total w (select is_ip false sans) ≡ total w sans
unfolding select
select_splits is_ip w [] = refl
select_splits is_ip w (name ∷ rest) = elim (Bool-cases (is_ip name)) [
  | inl ip ↦ rw ip (omega (arith, select_splits is_ip w rest))
  | inr dns ↦ rw dns (omega (arith, select_splits is_ip w rest))
]

module _ (a : PemAnswers) (path content : Bytes) (mode : ℕ) (d : Files) where
  write_pem_cases :
      let (good, e) = write_pem a path content mode d in
      (e.temps ≡ d.temps)
      × (((good ≡ false) × (e.file ≡ d.file))
          ⊎ (e.file ≡ update d.file path (some (content, mode))))
  unfolding write_pem
  write_pem_cases = ground arith

  -- Whatever fails, `writePEM` leaves no temporary file and no other file changed; its own file is as it
  -- was, which is an error, or has all of the content, with its mode.
  pub write_pem_whole :
      let (good, e) = write_pem a path content mode d in
      (e.temps ≡ d.temps)
      × ((other : Bytes) → same_bytes path other ≡ false → e.file other ≡ d.file other)
      × (((good ≡ false) × (e.file path ≡ d.file path)) ⊎ (e.file path ≡ some (content, mode)))
  write_pem_whole =
      let self : same_bytes path path ≡ true = (same_bytes_iff path path).1 refl in
      let e = (write_pem a path content mode d).1 in
      let (temps, ends) = write_pem_cases in
      elim ends [
        | inl (failed, same) ↦ (
          temps,
          λ other _. ap (λ (f : Bytes → Option (Bytes × ℕ)). f other) same,
          inl (failed, ap (λ (f : Bytes → Option (Bytes × ℕ)). f path) same),
        )
        | inr placed ↦ (
          temps,
          λ other o. ap (λ (f : Bytes → Option (Bytes × ℕ)). f other) placed ∙ rw o refl,
          inr (ap (λ (f : Bytes → Option (Bytes × ℕ)). f path) placed ∙ rw self refl),
        )
      ]

write_all_pem_temps :
    (a : ℕ → PemAnswers) (i : ℕ) (files : List Pem) (d : Files)
    → (write_all_pem a i files d).1.temps ≡ d.temps
unfolding write_all_pem
write_all_pem_temps a i [] d = refl
write_all_pem_temps a i (p ∷ rest) d =
    let now = (write_pem_cases (a i) p.path p.content p.mode d).0 in
    let (good, e) = write_pem (a i) p.path p.content p.mode d in
    if_elim (λ (x : Bool × Files). x.1.temps ≡ d.temps) good (write_all_pem a (i + 1) rest e)
      (false, e) (λ _. write_all_pem_temps a (i + 1) rest e ∙ now) (λ _. now)

-- `GenerateLocal` leaves no temporary file, whatever fails.
pub generate_local_temps :
    (is_ip : List ℕ → Bool) (g : Issuing) (dir : Bytes) (now : ℕ) (sans : List (List ℕ))
    (valid_for : ℤ) (d : Files)
    → (generate_local is_ip g dir now sans valid_for d).1.temps ≡ d.temps
unfolding generate_local
generate_local_temps is_ip g dir now sans valid_for d =
    elim (Result-cases (check_request g valid_for sans)) [
      | inl (names, e) ↦
          rw (e, generate_local)
            (write_all_pem_temps g.pem 0 (pem_files is_ip g dir now (pos_part valid_for) names) d)
      | inr (reason, e) ↦ rw (e, generate_local) refl
    ]
