-- ===== src/Transport/Serial/Rank/Order.antt =====
-- The order that `RankCandidates` of internal/transport/serial/serial.go sorts by.
use at_message_forward.Prelude.{
  ℕ, ◌+◌, ◌<◌, Bool, true, false, not, ◌&&◌, ◌||◌, [], ◌∷◌, ltb, ◌==◌, ◌≡◌, refl, sym, ◌⊎◌, inl,
  inr, arith, Bool-cases, ==_iff, ltb→lt, pos_part, neg_part, ℤ, pos, negsuc, ◌<ℤ◌, ◌↔◌, ap,
  through, either, both, same_iff,
}
use mathlib.Core.Path.{ap₂}
use at_message_forward.Text.{Text, text_eq, text_lt}
use at_message_forward.Transport.Serial.{Candidate}
use at_message_forward.Transport.Serial.Rank.{ranks_before}

pub text_eq_sound : (s t : Text) → text_eq s t ≡ true → s ≡ t
unfolding text_eq
text_eq_sound [] [] h = refl
text_eq_sound [] (d ∷ t) h = absurd (cc h)
text_eq_sound (c ∷ s) [] h = absurd (cc h)
text_eq_sound (c ∷ s) (d ∷ t) h = elim (Bool-cases (c == d)) [
  | inl same ↦ ap₂ (◌∷◌) ((==_iff c d).0 same) (text_eq_sound s t (rw same at h))
  | inr other ↦ absurd (cc (rw other at h))
]

pub text_eq_refl : (s : Text) → text_eq s s ≡ true
unfolding text_eq
text_eq_refl [] = refl
text_eq_refl (c ∷ s) = rw ((==_iff c c).1 refl) (text_eq_refl s)

text_lt_irreflexive : (s : Text) → text_lt s s ≡ false
unfolding text_lt
text_lt_irreflexive [] = refl
text_lt_irreflexive (c ∷ s) = ground (arith, text_lt_irreflexive s)

-- The first difference decides.
abbrev First : ℕ → ℕ → Type 0 → Type 0
First a b Later = (a < b) ⊎ ((a ≡ b) × Later)

cons_before : (a b : ℕ) (r : Bool) → ltb a b || (a == b && r) ≡ true → First a b (r ≡ true)
cons_before a b r h = elim (Bool-cases (ltb a b)) [
  | inl less ↦ inl (ltb→lt a b less)
  | inr other ↦ inr (ground arith, ground arith)
]

cons_before_back : (a b : ℕ) (r : Bool) → First a b (r ≡ true) → ltb a b || (a == b && r) ≡ true
cons_before_back a b r (inl less) = ground arith
cons_before_back a b r (inr (same, later)) = ground arith

First-chain :
    {a b c d e f : ℕ} {P Q R : Type 0}
    → (a < b → c < d → e < f)
    → (a < b → c ≡ d → e < f)
    → (a ≡ b → c < d → e < f)
    → (a ≡ b → c ≡ d → e ≡ f)
    → (P → Q → R)
    → First a b P
    → First c d Q
    → First e f R
First-chain ll ls sl ss both (inl less) (inl less') = inl (ll less less')
First-chain ll ls sl ss both (inl less) (inr (same, later)) = inl (ls less same)
First-chain ll ls sl ss both (inr (same, later)) (inl less) = inl (sl same less)
First-chain ll ls sl ss both (inr (same, later)) (inr (same', later')) =
    inr (ss same same', both later later')

text_lt_transitive : (s t u : Text) → text_lt s t ≡ true → text_lt t u ≡ true → text_lt s u ≡ true
unfolding text_lt
text_lt_transitive s [] [] h k = absurd (cc k)
text_lt_transitive s [] (e ∷ u) h k = absurd (cc h)
text_lt_transitive s (d ∷ t) [] h k = absurd (cc k)
text_lt_transitive [] (d ∷ t) (e ∷ u) h k = refl
text_lt_transitive (c ∷ s) (d ∷ t) (e ∷ u) h k = cons_before_back c e (text_lt s u) (
    First-chain (λ p q. omega arith) (λ p q. omega arith) (λ p q. omega arith) (λ p q. omega arith)
      (text_lt_transitive s t u) (cons_before c d (text_lt s t) h)
      (cons_before d e (text_lt t u) k))

-- Of two different texts one is less.
text_lt_connected : (s t : Text) → text_eq s t ≡ false → (text_lt s t ≡ true) ⊎ (text_lt t s ≡ true)
unfolding text_lt text_eq
text_lt_connected [] [] h = absurd (cc h)
text_lt_connected [] (d ∷ t) h = inl refl
text_lt_connected (c ∷ s) [] h = inr refl
text_lt_connected (c ∷ s) (d ∷ t) h = elim (Bool-cases (c == d)) [
  | inl same ↦
      let equal : c ≡ d = (==_iff c d).0 same in
      elim (text_lt_connected s t (rw same at h)) [
        | inl less ↦ inl (cons_before_back c d (text_lt s t) (inr (equal, less)))
        | inr more ↦ inr (cons_before_back d c (text_lt t s) (inr (sym equal, more)))
      ]
  | inr other ↦ elim (Bool-cases (ltb c d)) [
    | inl less ↦ inl (cons_before_back c d (text_lt s t) (inl (ltb→lt c d less)))
    | inr more ↦ inr (cons_before_back d c (text_lt t s) (inl (ground arith)))
  ]
]

-- `a < b`, or neither is less and the rest decides.
rank_step : (a b : ℕ) (r : Bool) → ltb a b || (not (ltb b a) && r) ≡ true → First a b (r ≡ true)
rank_step a b r h = elim (Bool-cases (ltb a b)) [
  | inl less ↦ inl (ltb→lt a b less)
  | inr other ↦ inr (ground arith, ground arith)
]

rank_step_back :
    (a b : ℕ) (r : Bool) → First a b (r ≡ true) → ltb a b || (not (ltb b a) && r) ≡ true
rank_step_back a b r (inl less) = ground arith
rank_step_back a b r (inr (same, later)) = ground arith

pub ranks_before_irreflexive : (c : Candidate) → ranks_before c c ≡ false
unfolding ranks_before
ranks_before_irreflexive c = ground (arith, text_lt_irreflexive c.port)

-- The scores of two candidates on one scale.
abbrev left : Candidate → Candidate → ℕ
left c d = pos_part d.score + neg_part c.score

abbrev right : Candidate → Candidate → ℕ
right c d = pos_part c.score + neg_part d.score

pub ranks_before_transitive :
    (c d e : Candidate)
    → ranks_before c d ≡ true
    → ranks_before d e ≡ true
    → ranks_before c e ≡ true
unfolding ranks_before
ranks_before_transitive c d e h k = rank_step_back (left c e) (right c e) (text_lt c.port e.port) (
    First-chain (λ p q. omega arith) (λ p q. omega arith) (λ p q. omega arith) (λ p q. omega arith)
      (text_lt_transitive c.port d.port e.port)
      (rank_step (left c d) (right c d) (text_lt c.port d.port) h)
      (rank_step (left d e) (right d e) (text_lt d.port e.port) k))

pub ranks_before_connected :
    (c d : Candidate)
    → text_eq c.port d.port ≡ false
    → (ranks_before c d ≡ true) ⊎ (ranks_before d c ≡ true)
unfolding ranks_before
ranks_before_connected c d h = elim (Bool-cases (ltb (left c d) (right c d))) [
  | inl more ↦ inl (rank_step_back (left c d) (right c d) _ (inl (ltb→lt _ _ more)))
  | inr less ↦ elim (Bool-cases (ltb (right c d) (left c d))) [
    | inl less' ↦ inr (rank_step_back (left d c) (right d c) _ (inl (ltb→lt _ _ less')))
    | inr same ↦ elim (text_lt_connected c.port d.port h) [
      | inl first ↦ inl (rank_step_back (left c d) (right c d) _ (inr (ground arith, first)))
      | inr first ↦ inr (rank_step_back (left d c) (right d c) _ (inr (ground arith, first)))
    ]
  ]
]

-- A text stands before another one: at the first difference by its character, or as a proper prefix.
abbrev pub Precedes : Text → Text → Type 0
Precedes s [] = ⊥
Precedes [] (d ∷ t) = Unit
Precedes (c ∷ s) (d ∷ t) = (c < d) ⊎ ((c ≡ d) × Precedes s t)

-- A higher score, or the same score and a port that stands before the other.
abbrev pub Outranks : Candidate → Candidate → Type 0
Outranks c d = (d.score <ℤ c.score) ⊎ ((d.score ≡ c.score) × Precedes c.port d.port)

text_lt_iff : (s t : Text) → (text_lt s t ≡ true) ↔ Precedes s t
unfolding text_lt
text_lt_iff [] [] = (λ h. absurd (cc h), λ h. absurd h)
text_lt_iff (c ∷ s) [] = (λ h. absurd (cc h), λ h. absurd h)
text_lt_iff [] (d ∷ t) = (λ h. tt, λ h. refl)
text_lt_iff (c ∷ s) (d ∷ t) =
    through (cons_before c d (text_lt s t), cons_before_back c d (text_lt s t))
      (either same_iff (both same_iff (text_lt_iff s t)))

-- Two integers whose distance is zero are the same.
same_ℤ : (a b : ℤ) → (pos_part a + neg_part b ≡ pos_part b + neg_part a) ↔ (a ≡ b)
same_ℤ (pos m) (pos n) = (λ h. ap pos (omega (arith, h)), λ h. ground (arith, h))
same_ℤ (pos m) (negsuc n) = (λ h. absurd (omega (arith, h)), λ h. absurd (cc h))
same_ℤ (negsuc m) (pos n) = (λ h. absurd (omega (arith, h)), λ h. absurd (cc h))
same_ℤ (negsuc m) (negsuc n) = (λ h. ap negsuc (omega (arith, h)), λ h. ground (arith, h))

pub ranks_before_iff : (c d : Candidate) → (ranks_before c d ≡ true) ↔ Outranks c d
unfolding ranks_before
ranks_before_iff c d =
    through
      (
        rank_step (left c d) (right c d) (text_lt c.port d.port),
        rank_step_back (left c d) (right c d) (text_lt c.port d.port),
      )
      (either same_iff (both (same_ℤ d.score c.score) (text_lt_iff c.port d.port)))
