-- ===== src/Prelude/Faults.antt =====
-- `Result`: a value or an error. The texts of errors are not modelled; each error keeps its kind.
use mathlib.Core.Path.{◌≡◌, refl}
use mathlib.Core.Logic.{◌⊎◌, inl, inr}
use mathlib.Core.Bool.{Bool, true, false}

pub data Result {ℓ κ} (E : Type κ) (A : Type ℓ) : Type (ℓ ⊔ κ) where
  err : E → Result E A
  ok : A → Result E A

abbrev pub is_ok {ℓ κ} : {E : Type κ} {A : Type ℓ} → Result E A → Bool
is_ok (err _) = false
is_ok (ok _) = true

-- `if !test { return Err(fault) }`
abbrev pub guard {κ} : {E : Type κ} (test : Bool) (fault : E) → Result E (Unit {0})
guard false fault = err fault
guard true fault = ok tt

-- `?`, the early return on an error.
infixl 5 ◌>>=◌ ◌>>◌
abbrev pub ◌>>=◌ {ℓ μ κ} :
    {E : Type κ} {A : Type ℓ} {B : Type μ} (first : Result E A) (next : A → Result E B) → Result E B
err fault >>= next = err fault
ok value >>= next = next value

abbrev pub ◌>>◌ {ℓ κ} :
    {E : Type κ} {B : Type ℓ} (first : Result E (Unit {0})) (second : Result E B) → Result E B
first >> second = first >>= (λ unit. second)

pub >>=-eq-ok {ℓ μ κ} :
    {E : Type κ} {A : Type ℓ} {B : Type μ} (first : Result E A) (next : A → Result E B) {out : B}
    → (first >>= next) ≡ ok out
    → (value : A) × (first ≡ ok value) × (next value ≡ ok out)
>>=-eq-ok (err fault) next h = cc
>>=-eq-ok (ok value) next h = (value, refl, h)

pub ok_of_is_ok {ℓ μ κ} :
    {E : Type κ} {A : Type ℓ} {B : Type μ} (first : Result E A) (next : A → Result E B)
    → is_ok (first >>= next) ≡ true
    → (value : A) × (first ≡ ok value)
ok_of_is_ok (err fault) next h = cc
ok_of_is_ok (ok value) next h = (value, refl)

pub Result-cases {ℓ κ} :
    {E : Type κ} {A : Type ℓ} (r : Result E A)
    → ((fault : E) × (r ≡ err fault)) ⊎ ((a : A) × (r ≡ ok a))
Result-cases (err fault) = inl (fault, refl)
Result-cases (ok a) = inr (a, refl)

pub ok-injective {ℓ κ} :
    {E : Type κ} {A : Type ℓ} (a b : A) → ◌≡◌ {A = Result E A} (ok a) (ok b) → a ≡ b
ok-injective a b h = cc
