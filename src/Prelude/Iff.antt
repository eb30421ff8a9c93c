-- ===== src/Prelude/Iff.antt =====
-- Equivalences put together, and the Boolean connectives as propositions.
use mathlib.Core.Path.{◌≡◌, refl}
use mathlib.Core.Logic.{◌↔◌, ◌⊎◌, inl, inr}
use mathlib.Core.Bool.{Bool, true, false, ◌&&◌, ◌||◌}

pub and_iff : (a b : Bool) → (a && b ≡ true) ↔ ((a ≡ true) × (b ≡ true))
and_iff true b = (λ h. (refl, h), λ h. h.1)
and_iff false b = (λ h. absurd (cc h), λ h. absurd (cc (h.0)))

pub or_iff : (a b : Bool) → (a || b ≡ true) ↔ ((a ≡ true) ⊎ (b ≡ true))
or_iff true b = (λ h. inl refl, λ h. refl)
or_iff false b = (inr, λ h. elim h [ inl none_here ↦ absurd (cc none_here) | inr second ↦ second ])

-- What holds of both parts.
pub either {ℓ} : {A B C D : Type ℓ} → A ↔ C → B ↔ D → (A ⊎ B) ↔ (C ⊎ D)
either f g = (
  λ h. elim h [ inl a ↦ inl (f.0 a) | inr b ↦ inr (g.0 b) ],
  λ h. elim h [ inl c ↦ inl (f.1 c) | inr d ↦ inr (g.1 d) ],
)

pub both {ℓ} : {A B C D : Type ℓ} → A ↔ C → B ↔ D → (A × B) ↔ (C × D)
both f g = (λ h. (f.0 h.0, g.0 h.1), λ h. (f.1 h.0, g.1 h.1))

pub through {ℓ} : {A B C : Type ℓ} → A ↔ B → B ↔ C → A ↔ C
through f g = (λ a. g.0 (f.0 a), λ c. f.1 (g.1 c))

-- One item more, then the others.
pub one_more {ℓ} :
    {All Step Rest Before Item : Type ℓ}
    → All ↔ (Step ⊎ Rest)
    → Step ↔ (Before ⊎ Item)
    → All ↔ (Before ⊎ (Item ⊎ Rest))
one_more f g = (
  λ a. elim (f.0 a) [
    | inl s ↦ elim (g.0 s) [ inl b ↦ inl b | inr i ↦ inr (inl i) ]
    | inr r ↦ inr (inr r)
  ],
  λ h. elim h [
    | inl b ↦ f.1 (inl (g.1 (inl b)))
    | inr (inl i) ↦ f.1 (inl (g.1 (inr i)))
    | inr (inr r) ↦ f.1 (inr r)
  ],
)

pub nothing_more {ℓ} : {A : Type ℓ} → A ↔ (A ⊎ ⊥)
nothing_more = (inl, λ h. elim h [ inl a ↦ a | inr none_here ↦ absurd none_here ])

pub same_iff {ℓ} : {A : Type ℓ} → A ↔ A
same_iff = (λ a. a, λ a. a)

pub empty_before {ℓ} : {A : Type ℓ} → (⊥ ⊎ A) ↔ A
empty_before = (λ h. elim h [ inl none_here ↦ absurd none_here | inr a ↦ a ], inr)
