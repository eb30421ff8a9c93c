-- ===== src/Transport/Serial/Rank/Champion.antt =====
-- The candidate that `RankCandidates` of internal/transport/serial/serial.go keeps of a port, by its place in
-- the list of all candidates.
use at_message_forward.Prelude.{
  true, false, not, ◌&&◌, none, some, List, [], ◌∷◌, ◌++◌, if◌then◌else◌, ltb_ℤ, ◌<ℤ◌, ◌≤ℤ◌, ◌≡◌,
  ◌≢◌, refl, ap, ◌∙◌, ◌↔◌, inl, inr, arith, Bool-cases, Option-cases, All,
}
use mathlib.Core.Option.{some-injective}
use mathlib.Core.Path.{subst}
use at_message_forward.Text.{Text, text_eq, is_empty}
use at_message_forward.Transport.Serial.{Candidate}
use at_message_forward.Transport.Serial.Rank.Wins.{
  counts_iff, other_port, Wins, Wins-cons, Wins-first, lower, bounded_by, Wins-All,
}
use at_message_forward.Transport.Serial.Rank.Best.{champion}

-- Of the same port, a lower score.
abbrev pub Below : Candidate → Candidate → Type 0
Below c d = d.port ≡ c.port → d.score <ℤ c.score

-- Of the same port, no higher score.
abbrev pub NotAbove : Candidate → Candidate → Type 0
NotAbove c d = d.port ≡ c.port → d.score ≤ℤ c.score

-- A candidate with a port: those of its port in front of it have a lower score, those behind it no
-- higher one.
pub record IsChampion (candidates : List Candidate) (c : Candidate) : Type 0 where
  pub before : List Candidate
  pub after : List Candidate
  pub splits : candidates ≡ before ++ c ∷ after
  pub has_port : c.port ≢ []
  pub earlier : All (Below c) before
  pub later : All (NotAbove c) after

none_counts :
    (p : Text) (xs : List Candidate)
    → p ≢ []
    → champion p xs ≡ none
    → (x : Candidate) → All (λ e. e.port ≡ p → e.score ≤ℤ x.score) xs
unfolding champion
none_counts p [] h e x = tt
none_counts p (y ∷ ys) h e x = elim (Bool-cases (not (is_empty y.port) && text_eq y.port p)) [
  | inl counted ↦ elim (Option-cases (champion p ys)) [
    | inl alone ↦ absurd (cc (rw (counted, alone) at e))
    | inr found ↦ absurd (cc (rw (counted, found.1) at e))
  ]
  | inr other ↦ (λ same. absurd (other_port p y other h same), none_counts p ys h (rw other at e) x)
]

beaten :
    (p : Text) (x : Candidate) (xs : List Candidate) (d c : Candidate)
    → (x.port ≢ []) × (x.port ≡ p)
    → Wins p xs d
    → (if ltb_ℤ x.score d.score then d else x) ≡ c
    → Wins p (x ∷ xs) c
beaten p x xs d c h w e = elim (Bool-cases (ltb_ℤ x.score d.score)) [
  | inl less ↦
      subst (Wins p (x ∷ xs)) (rw less at e) (Wins-cons p x xs d (λ same. lower x d less) w)
  | inr more ↦
      subst (Wins p (x ∷ xs)) (rw more at e)
        (Wins-first p x xs h (bounded_by p x d xs more (Wins-All p xs d w)))
]

champion-Wins :
    (p : Text) (xs : List Candidate) (c : Candidate) → p ≢ [] → champion p xs ≡ some c → Wins p xs c
unfolding champion
champion-Wins p [] c h e = absurd (cc e)
champion-Wins p (x ∷ xs) c h e = elim (Bool-cases (not (is_empty x.port) && text_eq x.port p)) [
  | inl counted ↦ elim (Option-cases (champion p xs)) [
    | inl alone ↦
        subst (Wins p (x ∷ xs)) (some-injective _ _ (rw (counted, alone) at e))
          (Wins-first p x xs ((counts_iff p x).0 counted) (none_counts p xs h alone x))
    | inr found ↦
        beaten p x xs found.0 c ((counts_iff p x).0 counted) (champion-Wins p xs found.0 h found.1)
          (some-injective _ _ (rw (counted, found.1) at e))
  ]
  | inr other ↦
      Wins-cons p x xs c (λ same. absurd (other_port p x other h same))
        (champion-Wins p xs c h (rw other at e))
]

not_lower : (a b : Candidate) → b.score ≤ℤ a.score → ltb_ℤ a.score b.score ≡ false
not_lower a b h = ground (arith, h)

lower_back : (a b : Candidate) → a.score <ℤ b.score → ltb_ℤ a.score b.score ≡ true
lower_back a b h = ground (arith, h)

champion_holds :
    (P : Candidate → Type 0) (p : Text) (xs : List Candidate) (d : Candidate)
    → p ≢ []
    → All P xs
    → champion p xs ≡ some d
    → P d × (d.port ≡ p)
champion_holds P p xs d h hs e =
    let w : Wins p xs d = champion-Wins p xs d h e in
    (middle w.after w.before (subst (All P) w.splits hs), w.is_port)
  where
    middle : (after before : List Candidate) → All P (before ++ d ∷ after) → P d
    middle after [] k = k.0
    middle after (x ∷ before) k = middle after before k.1

champion_at :
    (p : Text) (before after : List Candidate) (c : Candidate)
    → (c.port ≢ []) × (c.port ≡ p)
    → All (λ d. d.port ≡ p → d.score <ℤ c.score) before
    → All (λ d. d.port ≡ p → d.score ≤ℤ c.score) after
    → champion p (before ++ c ∷ after) ≡ some c
unfolding champion
champion_at p [] after c h earlier later =
    let p_there : p ≢ [] = (λ e. h.0 (h.1 ∙ e)) in
    elim (Option-cases (champion p after)) [
      | inl alone ↦ rw ((counts_iff p c).1 h, alone) refl
      | inr found ↦
          let (bound, same) =
            champion_holds (λ d. d.port ≡ p → d.score ≤ℤ c.score) p after found.0 p_there later
              found.1 in
          rw ((counts_iff p c).1 h, found.1, not_lower c found.0 (bound same)) refl
    ]
champion_at p (x ∷ before) after c h earlier later =
    let rest : champion p (before ++ c ∷ after) ≡ some c =
      champion_at p before after c h earlier.1 later in
    elim (Bool-cases (not (is_empty x.port) && text_eq x.port p)) [
      | inl counted ↦
          rw (counted, rest, lower_back x c (earlier.0 ((counts_iff p x).0 counted).1)) refl
      | inr other ↦ rw (other, rest) refl
    ]

no_blank : (p : Text) (xs : List Candidate) (c : Candidate) → champion p xs ≡ some c → p ≢ []
unfolding champion
no_blank p [] c e = absurd (cc e)
no_blank p (x ∷ xs) c e = elim (Bool-cases (not (is_empty x.port) && text_eq x.port p)) [
  | inl counted ↦ let (there, same) = (counts_iff p x).0 counted in (λ blank. there (same ∙ blank))
  | inr other ↦ no_blank p xs c (rw other at e)
]

-- The champion of a candidate's port is that candidate exactly if it stands so in the list.
pub champion_iff :
    (candidates : List Candidate) (c : Candidate)
    → (champion c.port candidates ≡ some c) ↔ IsChampion candidates c
champion_iff candidates c = (
  λ e.
      let w : Wins c.port candidates c =
        champion-Wins c.port candidates c (no_blank c.port candidates c e) e in
      record {
        before = w.before;
        after = w.after;
        splits = w.splits;
        has_port = w.has_port;
        earlier = w.earlier;
        later = w.later;
      },
  λ k.
      ap (champion c.port) k.splits
      ∙ champion_at c.port k.before k.after c (k.has_port, refl) k.earlier k.later,
)
