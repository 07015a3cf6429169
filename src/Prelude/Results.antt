-- ===== src/Prelude/Results.antt =====
-- Go's `(T, error)` returns as values. Each component has its own type of errors.
use mathlib.Core.Path.{◌≡◌, refl}
use mathlib.Core.Logic.{◌⊎◌, inl, inr}
use mathlib.Core.Bool.{Bool, true, false}

pub data Result {ℓ κ} (E : Type ℓ) (A : Type κ) : Type (ℓ ⊔ κ) where
  ok : A → Result E A
  err : E → Result E A

-- The rest of a block runs on a value, and an error ends it.
infixl 5 ◌>>=◌ ◌>>◌
abbrev pub ◌>>=◌ {ℓ κ μ} :
    {E : Type μ} {A : Type ℓ} {B : Type κ} → Result E A → (A → Result E B) → Result E B
err failure >>= rest = err failure
ok value >>= rest = rest value

abbrev pub ◌>>◌ {κ μ} :
    {E : Type μ} {B : Type κ} (check : Result E (Unit {0})) (rest : Result E B) → Result E B
check >> rest = check >>= λ done. rest

-- `if test { return err }`.
abbrev pub reject {ℓ} : {E : Type ℓ} → Bool → E → Result E (Unit {0})
reject true e = err e
reject false e = ok tt

-- `if err := ...; err != nil { return wrap(err) }`.
abbrev pub map_err {ℓ κ μ} :
    {E : Type ℓ} {F : Type κ} {A : Type μ} → (E → F) → Result E A → Result F A
map_err f (ok a) = ok a
map_err f (err e) = err (f e)

abbrev pub is_ok {ℓ κ} : {E : Type ℓ} {A : Type κ} → Result E A → Bool
is_ok (ok a) = true
is_ok (err e) = false

module _ {ℓ κ} {E : Type ℓ} {A : Type κ} where
  pub Result-cases : (r : Result E A) → ((a : A) × (r ≡ ok a)) ⊎ ((e : E) × (r ≡ err e))
  Result-cases (ok a) = inl (a, refl)
  Result-cases (err e) = inr (e, refl)

  -- A block that succeeds has a first step that succeeds.
  pub >>=-eq-ok {μ} :
      {B : Type μ} (first : Result E A) (rest : A → Result E B) {b : B}
      → (first >>= rest) ≡ ok b
      → (value : A) × (first ≡ ok value) × (rest value ≡ ok b)
  >>=-eq-ok (err failure) rest success = cc
  >>=-eq-ok (ok value) rest success = (value, refl, success)

pub >>-eq-ok {ℓ κ} :
    {E : Type ℓ} {B : Type κ} (m : Result E (Unit {0})) (k : Result E B) {b : B}
    → (m >> k) ≡ ok b
    → (m ≡ ok tt) × (k ≡ ok b)
>>-eq-ok (ok tt) k h = (refl, h)
>>-eq-ok (err e) k h = cc

-- A refused operation leaves the state as it was.
abbrev pub on_ok {ℓ κ μ} : {E : Type ℓ} {A : Type κ} {S : Type μ} → Result E A → S → (A → S) → S
on_ok (ok a) s f = f a
on_ok (err e) s f = s

pub on_ok-elim {ℓ κ μ ν} :
    {E : Type ℓ} {A : Type κ} {S : Type μ} (P : S → Type ν) (r : Result E A) (s : S) (f : A → S)
    → P s
    → ((a : A) → r ≡ ok a → P (f a))
    → P (on_ok r s f)
on_ok-elim P (ok a) s f p q = q a refl
on_ok-elim P (err e) s f p q = p
