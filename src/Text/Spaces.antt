-- ===== src/Text/Spaces.antt =====
-- `strings.TrimSpace` on texts that have no space, or none at their ends.
use at_message_forward.Prelude.{
  ℕ, ◌≤◌, true, false, [], ◌∷◌, ◌++◌, length, length-append, ◌≡◌, refl, arith, All,
}
use at_message_forward.Text.{Text, is_space, is_digit, trim_left, trim_right, keep, trim_space}

-- No character is white space.
abbrev pub NoSpace : Text → Type 0
NoSpace s = All (λ c. is_space c ≡ false) s

trim_left-NoSpace : (s : Text) → NoSpace s → trim_left is_space s ≡ s
unfolding trim_left
trim_left-NoSpace [] h = refl
trim_left-NoSpace (c ∷ s) h = rw h.0

keep-NoSpace : (c : ℕ) (s : Text) → is_space c ≡ false → keep is_space c s ≡ c ∷ s
keep-NoSpace c [] h = rw h
keep-NoSpace c (d ∷ s) h = refl

trim_right-NoSpace : (s : Text) → NoSpace s → trim_right is_space s ≡ s
unfolding trim_right
trim_right-NoSpace [] h = refl
trim_right-NoSpace (c ∷ s) h = rw (trim_right-NoSpace s h.1) (keep-NoSpace c s h.0)

pub trim_space-NoSpace : (s : Text) → NoSpace s → trim_space s ≡ s
unfolding trim_space
trim_space-NoSpace s h = rw (trim_left-NoSpace s h) (trim_right-NoSpace s h)

digit_no_space : (c : ℕ) → is_digit c ≡ true → is_space c ≡ false
unfolding is_digit is_space
digit_no_space c h = ground arith

pub Digits-NoSpace : (s : Text) → All (λ c. is_digit c ≡ true) s → NoSpace s
Digits-NoSpace [] h = tt
Digits-NoSpace (c ∷ s) h = (digit_no_space c h.0, Digits-NoSpace s h.1)

keep-nonempty : (c : ℕ) (s : Text) → 1 ≤ length s → keep is_space c s ≡ c ∷ s
keep-nonempty c [] h = absurd (omega arith)
keep-nonempty c (d ∷ s) h = refl

-- What ends in characters that are no spaces keeps its end.
trim_right-append :
    (s t : Text) → 1 ≤ length t → trim_right is_space t ≡ t → trim_right is_space (s ++ t) ≡ s ++ t
unfolding trim_right
trim_right-append [] t nonempty h = h
trim_right-append (c ∷ s) t nonempty h =
    rw (trim_right-append s t nonempty h)
      (keep-nonempty c (s ++ t) (omega (arith, length-append s t)))

-- A text between a first and a last part without spaces is not trimmed.
pub trim_space-between :
    (c : ℕ) (s t : Text)
    → is_space c ≡ false
    → 1 ≤ length t
    → NoSpace t
    → trim_space (c ∷ (s ++ t)) ≡ c ∷ (s ++ t)
unfolding trim_space trim_left
trim_space-between c s t first nonempty last =
    rw first (trim_right-append (c ∷ s) t nonempty (trim_right-NoSpace t last))
