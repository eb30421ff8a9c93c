-- ===== src/Transport/Serial/Detect/Laws.antt =====
-- Which port the auto-detection of internal/transport/serial/serial.go chooses.
use at_message_forward.Prelude.{
  true, false, Option, none, some, List, [], ◌∷◌, ◌++◌, map, if◌then◌else◌, ◌≡◌, refl, sym, ap, ◌∙◌,
  Bool-cases, inl, inr, All, ◌⊎◌, Result, ok, err,
}
use mathlib.Core.Path.{subst}
use mathlib.Core.Option.{some-injective}
use at_message_forward.Text.{Text}
use at_message_forward.Transport.Serial.{Candidate}
use at_message_forward.Transport.Serial.Detect.Sorted.{select_sorted}
use at_message_forward.Transport.Serial.Detect.{
  OpenError, no_matching_ports, Probed, with_probe, probe_candidates, first_ok, or_first,
  selected_port, auto_detect_with_baud,
}

-- The first candidate whose port answers a probe.
unfoldable first_answering : (Text → Probed) → List Candidate → Option Candidate
first_answering probe [] = none
first_answering probe (c ∷ candidates) =
    if (probe c.port).answers then some c else first_answering probe candidates

-- The port of the first candidate that answers, or else of the first, with its metadata of the probe.
choose_probed :
    (probe : Text → Probed) (candidates all : List Candidate)
    → selected_port
        (or_first (first_ok (map (with_probe probe) candidates)) (map (with_probe probe) all))
      ≡ selected_port (or_first (first_answering probe candidates) all)
unfolding first_ok first_answering with_probe
choose_probed probe [] [] = refl
choose_probed probe [] (c ∷ all) = refl
choose_probed probe (c ∷ candidates) all = elim (Bool-cases (probe c.port).answers) [
  | inl answers ↦ rw answers refl
  | inr fails ↦ rw fails (choose_probed probe candidates all)
]

auto_detect_with_baud-first :
    (probe : Text → Probed) (candidates : List Candidate)
    → auto_detect_with_baud probe candidates
      ≡ selected_port (or_first (first_answering probe candidates) candidates)
unfolding auto_detect_with_baud probe_candidates
auto_detect_with_baud-first probe [] = unfold first_answering in refl
auto_detect_with_baud-first probe (c ∷ candidates) =
    ap selected_port (select_sorted (map (with_probe probe) (c ∷ candidates)))
    ∙ choose_probed probe (c ∷ candidates) (c ∷ candidates)

abbrev pub Silent : (Text → Probed) → Candidate → Type 0
Silent probe c = (probe c.port).answers ≡ false

-- The port of a candidate that answers, behind ones that do not.
pub record IsFirstAnswer (probe : Text → Probed) (candidates : List Candidate) (port : Text)
    : Type 0 where
  pub before : List Candidate
  pub chosen : Candidate
  pub after : List Candidate
  pub splits : candidates ≡ before ++ chosen ∷ after
  pub silent : All (Silent probe) before
  pub answers : (probe chosen.port).answers ≡ true
  pub is_port : port ≡ chosen.port

-- The port of the first candidate, when none answers.
pub record IsFallback (probe : Text → Probed) (candidates : List Candidate) (port : Text)
    : Type 0 where
  pub first : Candidate
  pub others : List Candidate
  pub splits : candidates ≡ first ∷ others
  pub silent : All (Silent probe) candidates
  pub is_port : port ≡ first.port

-- What auto-detection may return for the candidates.
abbrev pub IsChoice : (Text → Probed) → List Candidate → Result OpenError Text → Type 0
IsChoice probe candidates (ok port) =
    IsFirstAnswer probe candidates port ⊎ IsFallback probe candidates port
IsChoice probe candidates (err e) = (candidates ≡ []) × (e ≡ no_matching_ports)

first_answering-IsFirstAnswer :
    (probe : Text → Probed) (candidates : List Candidate) (c : Candidate)
    → first_answering probe candidates ≡ some c
    → IsFirstAnswer probe candidates c.port
unfolding first_answering
first_answering-IsFirstAnswer probe [] c h = absurd (cc h)
first_answering-IsFirstAnswer probe (d ∷ candidates) c h =
    elim (Bool-cases (probe d.port).answers) [
      | inl yes_answer ↦
          let same : d ≡ c = some-injective _ _ (rw yes_answer at h) in
          record {
            before = [];
            chosen = d;
            after = candidates;
            splits = refl;
            silent = tt;
            answers = yes_answer;
            is_port = ap (λ x. x.port) (sym same);
          }
      | inr not_yet ↦
          let rest : IsFirstAnswer probe candidates c.port =
            first_answering-IsFirstAnswer probe candidates c (rw not_yet at h) in
          record {
            before = d ∷ rest.before;
            chosen = rest.chosen;
            after = rest.after;
            splits = ap (◌∷◌ d) rest.splits;
            silent = (not_yet, rest.silent);
            answers = rest.answers;
            is_port = rest.is_port;
          }
    ]

first_answering-Silent :
    (probe : Text → Probed) (candidates : List Candidate)
    → first_answering probe candidates ≡ none
    → All (Silent probe) candidates
unfolding first_answering
first_answering-Silent probe [] h = tt
first_answering-Silent probe (d ∷ candidates) h = elim (Bool-cases (probe d.port).answers) [
  | inl answers ↦ absurd (cc (rw answers at h))
  | inr silent ↦ (silent, first_answering-Silent probe candidates (rw silent at h))
]

selected-IsChoice :
    (probe : Text → Probed) (candidates : List Candidate) (o : Option Candidate)
    → first_answering probe candidates ≡ o
    → IsChoice probe candidates (selected_port (or_first o candidates))
selected-IsChoice probe candidates (some c) h =
    inl (first_answering-IsFirstAnswer probe candidates c h)
selected-IsChoice probe [] none h = (refl, refl)
selected-IsChoice probe (c ∷ candidates) none h = inr (record {
  first = c;
  others = candidates;
  splits = refl;
  silent = first_answering-Silent probe (c ∷ candidates) h;
  is_port = refl;
})

-- The port that is detected is that of the first candidate that answers a probe, or that of the first
-- candidate if none answers; an error is returned exactly for no candidates, and it says that no
-- port matches.
pub auto_detect_with_baud-IsChoice :
    (probe : Text → Probed) (candidates : List Candidate)
    → IsChoice probe candidates (auto_detect_with_baud probe candidates)
auto_detect_with_baud-IsChoice probe candidates =
    subst (IsChoice probe candidates) (sym (auto_detect_with_baud-first probe candidates))
      (selected-IsChoice probe candidates (first_answering probe candidates) refl)
