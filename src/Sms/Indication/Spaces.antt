-- ===== src/Sms/Indication/Spaces.antt =====
-- The pieces of the matchers of internal/sms/sms.go: runs of spaces, the first stop, the digits.
use at_message_forward.Prelude.{
  ℕ, true, false, some, [], ◌∷◌, ◌++◌, ◌==◌, if◌then◌else◌, ◌≡◌, ◌≢◌, refl, ap, arith, All,
  Bool-cases, Option-cases, inl, inr,
}
use mathlib.Core.Path.{subst}
use mathlib.Core.Option.{some-injective}
use at_message_forward.Text.{Text, is_digit, is_empty}
use at_message_forward.Sms.Indication.{
  is_re_space, skip_spaces, cut_at, digits_to_end, first_digit, match_length,
}

abbrev pub Spaces : Text → Type 0
Spaces w = All (λ c. is_re_space c ≡ true) w

abbrev pub Digits : Text → Type 0
Digits d = All (λ c. is_digit c ≡ true) d

abbrev pub Lacks : ℕ → Text → Type 0
Lacks stop s = All (λ c. (c == stop) ≡ false) s

pub skip_spaces-append : (w s : Text) → Spaces w → skip_spaces (w ++ s) ≡ skip_spaces s
unfolding skip_spaces
skip_spaces-append [] s h = refl
skip_spaces-append (c ∷ w) s h = rw h.0 (skip_spaces-append w s h.1)

-- The spaces that are skipped.
pub leading : Text → Text
leading [] = []
leading (c ∷ s) = if is_re_space c then c ∷ leading s else []

pub skip_spaces-leading : (s : Text) → (s ≡ leading s ++ skip_spaces s) × Spaces (leading s)
unfolding skip_spaces leading
skip_spaces-leading [] = (refl, tt)
skip_spaces-leading (c ∷ s) = elim (Bool-cases (is_re_space c)) [
  | inl space ↦ let (e, h) = skip_spaces-leading s in rw space (ap (◌∷◌ c) e, (space, h))
  | inr other ↦ rw other (refl, tt)
]

pub skip_spaces-all : (w : Text) → Spaces w → skip_spaces w ≡ []
unfolding skip_spaces
skip_spaces-all [] h = refl
skip_spaces-all (c ∷ w) h = rw h.0 (skip_spaces-all w h.1)

pub cut_at-append :
    (stop : ℕ) (a b : Text) → Lacks stop a → cut_at stop (a ++ stop ∷ b) ≡ some (a, b)
unfolding cut_at
cut_at-append stop [] b h = ground arith
cut_at-append stop (c ∷ a) b h = rw (h.0, cut_at-append stop a b h.1)

pub cut_at_sound :
    (stop : ℕ) (s : Text) (p : Text × Text)
    → cut_at stop s ≡ some p
    → (s ≡ p.0 ++ stop ∷ p.1) × Lacks stop p.0
unfolding cut_at
cut_at_sound stop [] p h = cc
cut_at_sound stop (c ∷ s) p h = elim (Option-cases (cut_at stop s)) [
  | inl none_left ↦ ground arith
  | inr (q, e) ↦ let (ih, lacks) = cut_at_sound stop s q e in ground arith
]

space-not-digit : (c : ℕ) → is_re_space c ≡ true → is_digit c ≡ false
unfolding is_digit
space-not-digit c h = ground arith

digit-not-space : (c : ℕ) → is_digit c ≡ true → is_re_space c ≡ false
unfolding is_digit
digit-not-space c h = ground arith

digits_to_end_complete :
    (c : ℕ) (d w : Text) → Digits d → Spaces w → digits_to_end c (d ++ w) ≡ some (c ∷ d)
unfolding digits_to_end
digits_to_end_complete c [] [] hd hw = refl
digits_to_end_complete c [] (x ∷ w) hd hw = rw (space-not-digit x hw.0, skip_spaces-all (x ∷ w) hw)
digits_to_end_complete c (x ∷ d) w hd hw = rw (hd.0, digits_to_end_complete x d w hd.1 hw)

all_of_skip_spaces : (s : Text) → is_empty (skip_spaces s) ≡ true → Spaces s
unfolding skip_spaces
all_of_skip_spaces [] h = tt
all_of_skip_spaces (c ∷ s) h = elim (Bool-cases (is_re_space c)) [
  | inl space ↦ (space, all_of_skip_spaces s (rw space at h))
  | inr other ↦ absurd (cc (rw other at h))
]

-- `\d+\s*$`: digits, one at least, and spaces behind them.
pub record EndsIn (t d : Text) : Type 0 where
  pub spaces : Text
  pub splits : t ≡ d ++ spaces
  pub digits : Digits d
  pub some_digit : d ≢ []
  pub are_spaces : Spaces spaces

EndsIn-cons : (c : ℕ) (t d : Text) → is_digit c ≡ true → EndsIn t d → EndsIn (c ∷ t) (c ∷ d)
EndsIn-cons c t d h e = record {
  spaces = e.spaces;
  splits = ap (◌∷◌ c) e.splits;
  digits = (h, e.digits);
  some_digit = λ x. cc;
  are_spaces = e.are_spaces;
}

EndsIn-one : (c : ℕ) (w : Text) → is_digit c ≡ true → Spaces w → EndsIn (c ∷ w) (c ∷ [])
EndsIn-one c w h hw = record {
  spaces = w;
  splits = refl;
  digits = (h, tt);
  some_digit = λ x. cc;
  are_spaces = hw;
}

digits_to_end_sound :
    (c : ℕ) (t d : Text) → is_digit c ≡ true → digits_to_end c t ≡ some d → EndsIn (c ∷ t) d
unfolding digits_to_end
digits_to_end_sound c [] d hc h =
    subst (EndsIn (c ∷ [])) (some-injective _ _ h) (EndsIn-one c [] hc tt)
digits_to_end_sound c (x ∷ t) d hc h = elim (Bool-cases (is_digit x)) [
  | inl digit ↦ elim (Option-cases (digits_to_end x t)) [
    | inl e ↦ absurd (cc (rw (digit, e) at h))
    | inr (d', e) ↦
        subst (EndsIn (c ∷ x ∷ t)) (some-injective _ _ (rw (digit, e) at h))
          (EndsIn-cons c (x ∷ t) d' hc (digits_to_end_sound x t d' digit e))
  ]
  | inr other ↦ elim (Bool-cases (is_empty (skip_spaces (x ∷ t)))) [
    | inl all ↦
        subst (EndsIn (c ∷ x ∷ t)) (some-injective _ _ (rw (other, all) at h))
          (EndsIn-one c (x ∷ t) hc (all_of_skip_spaces (x ∷ t) all))
    | inr more ↦ absurd (cc (rw (other, more) at h))
  ]
]

-- Behind the comma.
pub record IsLength (t d : Text) : Type 0 where
  pub before : Text
  pub rest : Text
  pub splits : t ≡ before ++ rest
  pub are_spaces : Spaces before
  pub ends : EndsIn rest d

first_digit_sound : (t d : Text) → first_digit t ≡ some d → EndsIn t d
first_digit_sound [] d h = absurd (cc h)
first_digit_sound (c ∷ t) d h = elim (Bool-cases (is_digit c)) [
  | inl digit ↦ digits_to_end_sound c t d digit (rw digit at h)
  | inr other ↦ absurd (cc (rw other at h))
]

pub match_length_sound : (t d : Text) → match_length t ≡ some d → IsLength t d
unfolding match_length
match_length_sound t d h =
    let (splits, spaces) = skip_spaces-leading t in
    record {
      before = leading t;
      rest = skip_spaces t;
      splits = splits;
      are_spaces = spaces;
      ends = first_digit_sound (skip_spaces t) d h;
    }

first_digit_complete : (d w : Text) → Digits d → d ≢ [] → Spaces w → first_digit (d ++ w) ≡ some d
first_digit_complete [] w h ne hw = absurd (ne refl)
first_digit_complete (c ∷ d) w h ne hw = rw h.0 (digits_to_end_complete c d w h.1 hw)

skip_spaces-Digits : (d w : Text) → Digits d → d ≢ [] → skip_spaces (d ++ w) ≡ d ++ w
unfolding skip_spaces
skip_spaces-Digits [] w h ne = absurd (ne refl)
skip_spaces-Digits (c ∷ d) w h ne = rw (digit-not-space c h.0)

pub match_length_complete : (t d : Text) → IsLength t d → match_length t ≡ some d
unfolding match_length
match_length_complete t d l =
    let e = l.ends in
    rw
      (
        l.splits,
        skip_spaces-append l.before l.rest l.are_spaces,
        e.splits,
        skip_spaces-Digits d e.spaces e.digits e.some_digit,
      )
      (first_digit_complete d e.spaces e.digits e.some_digit e.are_spaces)
