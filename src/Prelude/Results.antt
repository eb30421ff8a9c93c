-- ===== src/Prelude/Results.antt =====
-- Results of fallible code over a type of errors, and `do` blocks over them.
use mathlib.Core.Path.{◌≡◌, refl}

pub data Result {ℓ} (E A : Type ℓ) : Type ℓ where
  ok : A → Result E A
  err : E → Result E A

infixl 5 ◌>>=◌
-- An error passes every step behind it.
abbrev pub ◌>>=◌ {ℓ} : {E A B : Type ℓ} → Result E A → (A → Result E B) → Result E B
err x >>= next = err x
ok a >>= next = next a

-- A chain that succeeds has succeeded at its first step.
pub >>=-eq-ok {ℓ} :
    {E A B : Type ℓ} (first : Result E A) (next : A → Result E B) {out : B}
    → (first >>= next) ≡ ok out
    → (a : A) × (first ≡ ok a) × (next a ≡ ok out)
>>=-eq-ok (err x) next h = cc
>>=-eq-ok (ok a) next h = (a, refl, h)

pub ok-injective {ℓ} : {E A : Type ℓ} {a b : A} → ◌≡◌ {A = Result E A} (ok a) (ok b) → a ≡ b
ok-injective h = cc
