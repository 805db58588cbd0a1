-- ===== src/Result.antt =====
-- Python exceptions as values: an operation returns a value or raises an error, and `do` blocks
-- chain such operations.
use ml_tt_lang.Prelude.{◌≡◌, refl, ◌⊎◌, inl, inr, Bool, true, false}

pub data Result {ℓ κ} (E : Type κ) (A : Type ℓ) : Type (ℓ ⊔ κ) where
  err : E → Result E A
  ok : A → Result E A

-- `if not test: raise e`
abbrev pub guard {κ} : {E : Type κ} → Bool → E → Result E (Unit {0})
guard false e = err e
guard true _ = ok tt

module _ {ℓ κ} {E : Type κ} {B : Type ℓ} where
  infixl 5 ◌>>=◌ ◌>>◌
  abbrev pub ◌>>=◌ {μ} : {A : Type μ} → Result E A → (A → Result E B) → Result E B
  err e >>= next = err e
  ok x >>= next = next x

  abbrev pub ◌>>◌ : Result E (Unit {0}) → Result E B → Result E B
  check >> next = check >>= (λ u. next)

  -- Where a chain returns, its first part did.
  pub >>=-eq-ok {μ} :
      {A : Type μ} (r : Result E A) (next : A → Result E B) {y : B}
      → (r >>= next) ≡ ok y
      → (x : A) × (r ≡ ok x) × (next x ≡ ok y)
  >>=-eq-ok (err e) next p = cc
  >>=-eq-ok (ok x) next p = (x, refl, p)

pub Result-cases {ℓ κ} :
    {E : Type κ} {A : Type ℓ} (r : Result E A) → ((x : A) × (r ≡ ok x)) ⊎ ((e : E) × (r ≡ err e))
Result-cases (err e) = inr (e, refl)
Result-cases (ok x) = inl (x, refl)

-- A passed guard.
pub guard-ok {ℓ κ} :
    {E : Type κ} {B : Type ℓ} (b : Bool) (e : E) (next : Result E B) {y : B}
    → (guard b e >> next) ≡ ok y
    → (b ≡ true) × (next ≡ ok y)
guard-ok true e next p = (refl, p)
guard-ok false e next p = cc p
