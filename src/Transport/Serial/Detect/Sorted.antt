-- ===== src/Transport/Serial/Detect/Sorted.antt =====
-- The stable sort of `ProbeCandidates` of internal/transport/serial/serial.go, and the choice behind it.
use at_message_forward.Prelude.{
  Bool, true, false, not, ◌&&◌, Option, none, some, List, [], ◌∷◌, ◌++◌, if◌then◌else◌, ◌≡◌, refl,
  sym, ap, ◌∙◌, Bool-cases, inl, inr, All, arith,
}
use at_message_forward.Sorting.{insert, sort}
use at_message_forward.Transport.Serial.{Candidate}
use at_message_forward.Transport.Serial.Detect.{
  answers_before, first_ok, or_first, select_auto_detect_candidate,
}

-- The candidates whose probe answered, or did not, in order.
abbrev answering : Bool → List Candidate → List Candidate
answering wanted [] = []
answering true (c ∷ candidates) =
    if c.probe_ok then c ∷ answering true candidates else answering true candidates
answering false (c ∷ candidates) =
    if c.probe_ok then answering false candidates else c ∷ answering false candidates

-- One that did not answer stays in front of those that did not either.
insert_failed :
    (c : Candidate) (oks others : List Candidate)
    → c.probe_ok ≡ false
    → All (λ d. d.probe_ok ≡ true) oks
    → All (λ d. d.probe_ok ≡ false) others
    → insert answers_before c (oks ++ others) ≡ oks ++ c ∷ others
unfolding insert answers_before
insert_failed c [] [] hc h k = refl
insert_failed c [] (d ∷ others) hc h k = simp (k.0, hc)
insert_failed c (d ∷ oks) others hc h k =
    simp (h.0, hc) (ap (◌∷◌ d) (insert_failed c oks others hc h.1 k))

never : (a b : Bool) → b ≡ true → a && not b ≡ false
never a b h = ground arith

insert_answering :
    (c : Candidate) (candidates : List Candidate)
    → c.probe_ok ≡ true
    → insert answers_before c candidates ≡ c ∷ candidates
unfolding insert answers_before
insert_answering c [] hc = refl
insert_answering c (d ∷ candidates) hc =
    ap (λ b. if b then d ∷ insert answers_before c candidates else c ∷ d ∷ candidates)
      (never d.probe_ok c.probe_ok hc)

answering-All :
    (candidates : List Candidate) → All (λ d. d.probe_ok ≡ true) (answering true candidates)
answering-All [] = tt
answering-All (c ∷ candidates) = elim (Bool-cases c.probe_ok) [
  | inl answers ↦ simp answers (refl, answering-All candidates)
  | inr fails ↦ simp fails (answering-All candidates)
]

failing-All :
    (candidates : List Candidate) → All (λ d. d.probe_ok ≡ false) (answering false candidates)
failing-All [] = tt
failing-All (c ∷ candidates) = elim (Bool-cases c.probe_ok) [
  | inl answers ↦ simp answers (failing-All candidates)
  | inr fails ↦ simp fails (refl, failing-All candidates)
]

-- The stable sort puts those that answered first and keeps both in order.
sort-answers_before :
    (candidates : List Candidate)
    → sort answers_before candidates ≡ answering true candidates ++ answering false candidates
unfolding sort
sort-answers_before [] = refl
sort-answers_before (c ∷ candidates) = elim (Bool-cases c.probe_ok) [
  | inl answers ↦ simp (sort-answers_before candidates, answers) (insert_answering c _ answers)
  | inr fails ↦
      simp (sort-answers_before candidates, fails)
        (insert_failed c (answering true candidates) (answering false candidates) fails
          (answering-All candidates) (failing-All candidates))
]

abbrev head : List Candidate → Option Candidate
head [] = none
head (c ∷ candidates) = some c

first_ok-answering :
    (candidates : List Candidate) → first_ok candidates ≡ head (answering true candidates)
unfolding first_ok
first_ok-answering [] = refl
first_ok-answering (c ∷ candidates) = elim (Bool-cases c.probe_ok) [
  | inl answers ↦ simp answers
  | inr fails ↦ simp fails (first_ok-answering candidates)
]

first_ok-none :
    (others : List Candidate) → All (λ d. d.probe_ok ≡ false) others → first_ok others ≡ none
unfolding first_ok
first_ok-none [] h = refl
first_ok-none (c ∷ others) h = simp h.0 (first_ok-none others h.1)

all_failing :
    (candidates : List Candidate)
    → head (answering true candidates) ≡ none
    → answering false candidates ≡ candidates
all_failing [] h = refl
all_failing (c ∷ candidates) h = elim (Bool-cases c.probe_ok) [
  | inl answers ↦ absurd (cc (simp answers at h))
  | inr fails ↦ simp fails (ap (◌∷◌ c) (all_failing candidates (simp fails at h)))
]

-- Choosing behind the sort, and before it.
choose_sorted :
    (oks others candidates : List Candidate)
    → All (λ d. d.probe_ok ≡ true) oks
    → All (λ d. d.probe_ok ≡ false) others
    → (head oks ≡ none → others ≡ candidates)
    → or_first (first_ok (oks ++ others)) (oks ++ others) ≡ or_first (head oks) candidates
unfolding first_ok
choose_sorted [] others candidates h k rest =
    ap (λ o. or_first o others) (first_ok-none others k) ∙ ap (or_first none) (rest refl)
choose_sorted (d ∷ oks) others candidates h k rest = simp h.0

pub select_sorted :
    (candidates : List Candidate)
    → select_auto_detect_candidate (sort answers_before candidates)
      ≡ or_first (first_ok candidates) candidates
unfolding select_auto_detect_candidate
select_sorted candidates = rw (sort-answers_before candidates) (
    choose_sorted (answering true candidates) (answering false candidates) candidates
      (answering-All candidates) (failing-All candidates) (all_failing candidates)
    ∙ ap (λ o. or_first o candidates) (sym (first_ok-answering candidates)))
