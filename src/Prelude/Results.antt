-- ===== src/Prelude/Results.antt =====
-- What a Go call ends in: a value, a non-nil error, or a panic.
use mathlib.Core.Path.{◌≡◌, refl, ap}
use mathlib.Core.Logic.{◌≢◌, ◌⊎◌, inl, inr}

pub data Outcome {ℓ κ} (E : Type ℓ) (A : Type κ) : Type (ℓ ⊔ κ) where
  ok : A → Outcome E A
  err : E → Outcome E A
  panic : Outcome E A

-- What follows a call runs where the call returned a value.
infixl 5 ◌>>=◌
abbrev pub ◌>>=◌ {ℓ κ μ} :
    {E : Type ℓ} {A : Type κ} {B : Type μ} (call : Outcome E A) (next : A → Outcome E B)
    → Outcome E B
panic >>= next = panic
err fault >>= next = err fault
ok value >>= next = next value

pub ok-injective {ℓ κ} :
    {E : Type ℓ} {A : Type κ} {a b : A} → ◌≡◌ {A = Outcome E A} (ok a) (ok b) → a ≡ b
ok-injective {E} {A} {a} {b} h = ap value_of h
  where
    value_of : Outcome E A → A
    value_of (ok value) = value
    value_of _ = a

-- A caller that panics where the call returned an error.
abbrev pub must {ℓ κ μ} : {E : Type ℓ} {F : Type κ} {A : Type μ} → Outcome E A → Outcome F A
must (ok value) = ok value
must (err fault) = panic
must panic = panic

pub must_ok {ℓ κ μ} :
    {E : Type ℓ} {F : Type κ} {A : Type μ} (call : Outcome E A) (value : A)
    → must {F = F} call ≡ ok value
    → call ≡ ok value
must_ok (ok given) value h = ap ok (ok-injective h)
must_ok (err fault) value h = cc
must_ok panic value h = cc

-- Where the whole returned a value, the call did, and what follows it did.
pub >>=-eq-ok {ℓ κ μ} :
    {E : Type ℓ} {A : Type κ} {B : Type μ} (call : Outcome E A) (next : A → Outcome E B)
    {result : B}
    → (call >>= next) ≡ ok result
    → (value : A) × (call ≡ ok value) × (next value ≡ ok result)
>>=-eq-ok panic next whole = cc
>>=-eq-ok (err fault) next whole = cc
>>=-eq-ok (ok value) next whole = (value, refl, whole)

-- Whether a call returned nil.
pub returned_or_not {ℓ} : {E : Type ℓ} (o : Outcome E (Unit {0})) → (o ≡ ok tt) ⊎ (o ≢ ok tt)
returned_or_not (ok tt) = inl refl
returned_or_not (err e) = inr (λ p. cc)
returned_or_not panic = inr (λ p. cc)
