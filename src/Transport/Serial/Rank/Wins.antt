-- ===== src/Transport/Serial/Rank/Wins.antt =====
-- The place of the candidate that `RankCandidates` of internal/transport/serial/serial.go keeps of a port.
use at_message_forward.Prelude.{
  true, false, not, ◌&&◌, List, [], ◌∷◌, ◌++◌, ltb_ℤ, ◌<ℤ◌, ◌≤ℤ◌, ◌≡◌, ◌≢◌, refl, sym, ap, ◌∙◌, ◌↔◌,
  arith, All, through, both, and_iff, All-append,
}
use mathlib.Core.Path.{subst}
use at_message_forward.Text.{Text, text_eq, is_empty}
use at_message_forward.Transport.Serial.{Candidate}
use at_message_forward.Transport.Serial.Rank.Order.{text_eq_sound, text_eq_refl}

nonempty_lem : (s : Text) → not (is_empty s) ≡ true → s ≢ []
nonempty_lem [] h = absurd (cc h)
nonempty_lem (c ∷ s) h = λ e. cc e

not_empty : (s : Text) → s ≢ [] → not (is_empty s) ≡ true
not_empty [] h = absurd (h refl)
not_empty (c ∷ s) h = refl

-- A candidate counts for its port, and for no other.
pub counts_iff :
    (p : Text) (c : Candidate)
    → (not (is_empty c.port) && text_eq c.port p ≡ true) ↔ ((c.port ≢ []) × (c.port ≡ p))
counts_iff p c = through (and_iff (not (is_empty c.port)) (text_eq c.port p)) (
    both (nonempty_lem c.port, not_empty c.port)
      (
        text_eq_sound c.port p,
        λ same. subst (λ q. text_eq c.port q ≡ true) same (text_eq_refl c.port),
      ))

pub other_port :
    (p : Text) (x : Candidate)
    → not (is_empty x.port) && text_eq x.port p ≡ false
    → p ≢ []
    → x.port ≢ p
other_port p x other h same =
    absurd (cc (sym ((counts_iff p x).1 (λ e. h (sym same ∙ e), same)) ∙ other))

-- The parts of the champion for a port: the port, and how it compares with those in front of it and
-- behind it.
pub record Wins (p : Text) (candidates : List Candidate) (c : Candidate) : Type 0 where
  pub before : List Candidate
  pub after : List Candidate
  pub splits : candidates ≡ before ++ c ∷ after
  pub has_port : c.port ≢ []
  pub is_port : c.port ≡ p
  pub earlier : All (λ d. d.port ≡ p → d.score <ℤ c.score) before
  pub later : All (λ d. d.port ≡ p → d.score ≤ℤ c.score) after

pub Wins-cons :
    (p : Text) (x : Candidate) (xs : List Candidate) (c : Candidate)
    → (x.port ≡ p → x.score <ℤ c.score)
    → Wins p xs c
    → Wins p (x ∷ xs) c
Wins-cons p x xs c h w = record {
  before = x ∷ w.before;
  after = w.after;
  splits = ap (◌∷◌ x) w.splits;
  has_port = w.has_port;
  is_port = w.is_port;
  earlier = (h, w.earlier);
  later = w.later;
}

pub Wins-first :
    (p : Text) (x : Candidate) (xs : List Candidate)
    → (x.port ≢ []) × (x.port ≡ p)
    → All (λ d. d.port ≡ p → d.score ≤ℤ x.score) xs
    → Wins p (x ∷ xs) x
Wins-first p x xs h behind = record {
  before = [];
  after = xs;
  splits = refl;
  has_port = h.0;
  is_port = h.1;
  earlier = tt;
  later = behind;
}

-- Two notes on the scores.
pub lower : (a b : Candidate) → ltb_ℤ a.score b.score ≡ true → a.score <ℤ b.score
lower a b h = ground (arith, h)

not_higher :
    (a b c : Candidate) → ltb_ℤ a.score b.score ≡ false → c.score ≤ℤ b.score → c.score ≤ℤ a.score
not_higher a b c h k = ground (arith, h, k)

pub bounded_by :
    (p : Text) (x d : Candidate) (xs : List Candidate)
    → ltb_ℤ x.score d.score ≡ false
    → All (λ e. e.port ≡ p → e.score ≤ℤ d.score) xs
    → All (λ e. e.port ≡ p → e.score ≤ℤ x.score) xs
bounded_by p x d [] h hs = tt
bounded_by p x d (e ∷ xs) h hs =
    (λ same. not_higher x d e h (hs.0 same), bounded_by p x d xs h hs.1)

weaker :
    (p : Text) (d : Candidate) (xs : List Candidate)
    → All (λ e. e.port ≡ p → e.score <ℤ d.score) xs
    → All (λ e. e.port ≡ p → e.score ≤ℤ d.score) xs
weaker p d [] hs = tt
weaker p d (e ∷ xs) hs = (λ same. below (hs.0 same), weaker p d xs hs.1)
  where
    below : e.score <ℤ d.score → e.score ≤ℤ d.score
    below h = omega (arith, h)

-- None of the list exceeds the one that wins.
pub Wins-All :
    (p : Text) (xs : List Candidate) (d : Candidate)
    → Wins p xs d
    → All (λ e. e.port ≡ p → e.score ≤ℤ d.score) xs
Wins-All p xs d w =
    let P : Candidate → Type 0 = (λ e. e.port ≡ p → e.score ≤ℤ d.score) in
    subst (All P) (sym w.splits) (
      All-append P w.before (d ∷ w.after) (weaker p d w.before w.earlier) (λ same. self d, w.later))
  where
    self : (d : Candidate) → d.score ≤ℤ d.score
    self d = omega arith
