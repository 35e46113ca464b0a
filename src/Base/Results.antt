-- ===== src/Base/Results.antt =====
-- A Go result with an error: `err` for a non-nil error, `ok` for the value.
use mathlib.Core.Logic.{◌↔◌, ◌⊎◌, inl, inr}
use mathlib.Core.Bool.{Bool, true, false}
use compliance.Base.Tests.{if◌then◌else◌}
use mathlib.Core.Path.{◌≡◌, refl}

pub data Result {ℓ} (E : Type ℓ) (A : Type ℓ) : Type ℓ where
  ok : A → Result E A
  err : E → Result E A

infixl 5 ◌>>=◌
abbrev pub ◌>>=◌ {ℓ} : {E X Y : Type ℓ} → Result E X → (X → Result E Y) → Result E Y
err e >>= next = err e
ok x >>= next = next x

-- When a chain gives a value, its first step gives the one that the rest starts from.
pub ok_of_chain {ℓ} :
    {E X Y : Type ℓ} {y : Y} {next : X → Result E Y} (step : Result E X)
    → (step >>= next) ≡ ok y
    → (x : X) × (step ≡ ok x) × (next x ≡ ok y)
ok_of_chain (err e) chain = cc
ok_of_chain (ok x) chain = (x, refl, chain)

pub ok-injective {ℓ} : {E A : Type ℓ} {x y : A} → ◌≡◌ {A = Result E A} (ok x) (ok y) → x ≡ y
ok-injective h = cc

-- A check that returns early lets a value through only if its condition fails.
pub guarded_ok {ℓ} :
    {E A : Type ℓ} (b : Bool) (e : E) (r : Result E A) {a : A}
    → ((if b then err e else r) ≡ ok a) ↔ ((b ≡ false) × (r ≡ ok a))
guarded_ok true e r = ((λ h. cc), (λ h. cc))
guarded_ok false e r = ((λ h. (refl, h)), (λ h. h.1))

pub Result-cases {ℓ} :
    {E A : Type ℓ} (r : Result E A) → ((a : A) × (r ≡ ok a)) ⊎ ((e : E) × (r ≡ err e))
Result-cases (ok a) = inl (a, refl)
Result-cases (err e) = inr (e, refl)
