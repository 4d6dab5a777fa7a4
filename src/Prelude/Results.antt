-- ===== src/Prelude/Results.antt =====
-- Results that are a value or an error.
use mathlib.Core.Path.{◌≡◌, refl}
use mathlib.Core.Logic.{◌⊎◌, inl, inr}

pub data Result {ℓ ℓ'} (E : Type ℓ) (A : Type ℓ') : Type (ℓ ⊔ ℓ') where
  err : E → Result E A
  ok : A → Result E A

infixl 20 ◌>>=◌
abbrev pub ◌>>=◌ {ℓ ℓ' ℓ''} :
    {E : Type ℓ} {A : Type ℓ'} {B : Type ℓ''} → Result E A → (A → Result E B) → Result E B
(err e) >>= f = err e
(ok a) >>= f = f a

pub bind-ok {ℓ ℓ' ℓ''} :
    {E : Type ℓ} {A : Type ℓ'} {B : Type ℓ''} (r : Result E A) (f : A → Result E B) {b : B}
    → (r >>= f) ≡ ok b
    → (a : A) × (r ≡ ok a) × (f a ≡ ok b)
bind-ok (err e) f q = cc
bind-ok (ok a) f q = (a, refl, q)

pub ok_injective {ℓ ℓ'} :
    {E : Type ℓ} {A : Type ℓ'} {x y : A} → ◌≡◌ {A = Result E A} (ok x) (ok y) → x ≡ y
ok_injective q = cc

pub err_not_ok {ℓ ℓ'} :
    {E : Type ℓ} {A : Type ℓ'} {e : E} {x : A} → ◌≡◌ {A = Result E A} (err e) (ok x) → ⊥
err_not_ok q = cc

pub Result-cases {ℓ ℓ'} :
    {E : Type ℓ} {A : Type ℓ'} (r : Result E A) → ((e : E) × (r ≡ err e)) ⊎ ((x : A) × (r ≡ ok x))
Result-cases (err e) = inl (e, refl)
Result-cases (ok x) = inr (x, refl)
