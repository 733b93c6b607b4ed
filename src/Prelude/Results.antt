-- ===== src/Prelude/Results.antt =====
-- A Go pair `(value, error)`: a value or an error, with `do`.
use mathlib.Core.Path.{◌≡◌, refl}
use mathlib.Core.Logic.{◌⊎◌, inl, inr}
use mathlib.Core.Bool.{Bool, true, false}
use mathlib.Core.Option.{Option, none, some}

pub data Result {ℓ κ} (E : Type ℓ) (A : Type κ) : Type (ℓ ⊔ κ) where
  err : E → Result E A
  ok : A → Result E A

module _ {ℓ} {E : Type ℓ} where
  -- The early return of `if err != nil`.
  infixl 5 ◌>>=◌
  abbrev pub ◌>>=◌ {κ μ} : {A : Type κ} {B : Type μ} → Result E A → (A → Result E B) → Result E B
  err reason >>= k = err reason
  ok value >>= k = k value

  infixl 5 ◌>>◌
  abbrev pub ◌>>◌ {μ} : {B : Type μ} → Result E (Unit {0}) → Result E B → Result E B
  first >> second = first >>= λ _. second

  -- `if !b { return err }`.
  abbrev pub guard : Bool → E → Result E (Unit {0})
  guard false reason = err reason
  guard true reason = ok tt

  abbrev pub or_fail {κ} : {A : Type κ} → Option A → E → Result E A
  or_fail (some value) reason = ok value
  or_fail none reason = err reason

  pub passed_guard : (b : Bool) (reason : E) {u : Unit {0}} → guard b reason ≡ ok u → b ≡ true
  passed_guard true reason h = refl
  passed_guard false reason h = cc

  module _ {κ μ} {A : Type κ} {B : Type μ} where
    -- What a chain that succeeds went through.
    pub >>=-eq-ok :
        (r : Result E A) (k : A → Result E B) {b : B}
        → r >>= k ≡ ok b
        → (value : A) × (r ≡ ok value) × (k value ≡ ok b)
    >>=-eq-ok (err reason) k h = cc
    >>=-eq-ok (ok value) k h = (value, refl, h)

  pub Result-cases {κ} :
      {A : Type κ} (r : Result E A)
      → ((value : A) × (r ≡ ok value)) ⊎ ((reason : E) × (r ≡ err reason))
  Result-cases (err reason) = inr (reason, refl)
  Result-cases (ok value) = inl (value, refl)

-- The error that is kept where several calls are made whatever they return: the first.
abbrev pub first_error {ℓ} : {E : Type ℓ} → Option E → Option E → Option E
first_error none later = later
first_error (some e) later = some e
