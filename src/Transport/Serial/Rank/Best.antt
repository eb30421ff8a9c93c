-- ===== src/Transport/Serial/Rank/Best.antt =====
-- The map that `RankCandidates` of internal/transport/serial/serial.go fills.
use at_message_forward.Prelude.{
  Bool, true, false, not, ◌&&◌, Option, none, some, List, [], ◌∷◌, if◌then◌else◌, ltb_ℤ, ◌≡◌, refl,
  sym, ap, ◌∙◌, ◌⊎◌, ◌↔◌, inl, inr, arith, Bool-cases, All,
}
use mathlib.Core.Option.{some-injective}
use mathlib.Core.Path.{subst}
use at_message_forward.Text.{Text, text_eq, is_empty}
use at_message_forward.Sorting.Laws.{In, TellsApart}
use at_message_forward.Transport.Serial.{Candidate}
use at_message_forward.Transport.Serial.Rank.{put_best, best_from, ranks_before}
use at_message_forward.Transport.Serial.Rank.Order.{
  text_eq_sound, text_eq_refl, ranks_before_connected,
}

-- The one with the higher score, and of two with the same score the first.
abbrev pub better : Option Candidate → Option Candidate → Option Candidate
better none o = o
better (some c) none = some c
better (some c) (some d) = some (if ltb_ℤ c.score d.score then d else c)

-- The first candidate of a port with the highest score; a candidate with no port does not count.
unfoldable pub champion : Text → List Candidate → Option Candidate
champion p [] = none
champion p (c ∷ candidates) =
    let rest = champion p candidates in
    if not (is_empty c.port) && text_eq c.port p then better (some c) rest else rest

unfoldable lookup : Text → List Candidate → Option Candidate
lookup p [] = none
lookup p (d ∷ best) = if text_eq d.port p then some d else lookup p best

ltb_ℤ-chain :
    (a b c : Candidate)
    → ltb_ℤ a.score b.score ≡ true
    → ltb_ℤ b.score c.score ≡ true
    → ltb_ℤ a.score c.score ≡ true
ltb_ℤ-chain a b c h k = ground arith

not_ltb_ℤ-chain :
    (a b c : Candidate)
    → ltb_ℤ a.score b.score ≡ false
    → ltb_ℤ b.score c.score ≡ false
    → ltb_ℤ a.score c.score ≡ false
not_ltb_ℤ-chain a b c h k = ground arith

better_assoc : (a b c : Option Candidate) → better (better a b) c ≡ better a (better b c)
better_assoc none b c = refl
better_assoc (some a) none c = refl
better_assoc (some a) (some b) none = refl
better_assoc (some a) (some b) (some c) = elim (Bool-cases (ltb_ℤ a.score b.score)) [
  | inl ab ↦ elim (Bool-cases (ltb_ℤ b.score c.score)) [
    | inl bc ↦ rw (ab, bc, ltb_ℤ-chain a b c ab bc) refl
    | inr cb ↦ rw (ab, cb, ab) refl
  ]
  | inr ba ↦ elim (Bool-cases (ltb_ℤ b.score c.score)) [
    | inl bc ↦ rw (ba, bc) refl
    | inr cb ↦ rw (ba, cb, ba, not_ltb_ℤ-chain a b c ba cb) refl
  ]
]

if_port : (b : Bool) (c d : Candidate) → c.port ≡ d.port → (if b then c else d).port ≡ d.port
if_port true c d same = same
if_port false c d same = refl

right_none : (o : Option Candidate) → o ≡ better o none
right_none none = refl
right_none (some c) = refl

-- A port that is that of one entry is not that of another.
differs :
    (p : Text) (c d : Candidate)
    → text_eq d.port c.port ≡ false
    → text_eq d.port p ≡ true
    → text_eq c.port p ≡ false
differs p c d other wanted = elim (Bool-cases (text_eq c.port p)) [
  | inl also ↦ absurd (
      cc (
        sym other
        ∙ ap (λ x. text_eq x c.port)
            (text_eq_sound d.port p wanted ∙ sym (text_eq_sound c.port p also))
        ∙ text_eq_refl c.port))
  | inr unwanted ↦ unwanted
]

lookup-put_best :
    (p : Text) (c : Candidate) (best : List Candidate)
    → lookup p (put_best c best)
      ≡ (if text_eq c.port p then better (lookup p best) (some c) else lookup p best)
unfolding lookup put_best
lookup-put_best p c [] = refl
lookup-put_best p c (d ∷ best) = elim (Bool-cases (text_eq d.port c.port)) [
  | inl same ↦
      let ports : d.port ≡ c.port = text_eq_sound d.port c.port same in
      let kept : text_eq (if ltb_ℤ d.score c.score then c else d).port p ≡ text_eq c.port p =
        ap (λ x. text_eq x p) (if_port (ltb_ℤ d.score c.score) c d (sym ports) ∙ ports) in
      let old : text_eq d.port p ≡ text_eq c.port p = ap (λ x. text_eq x p) ports in
      rw (same, kept, old)
        (elim (Bool-cases (text_eq c.port p)) [
          | inl wanted ↦ rw wanted refl
          | inr unwanted ↦ rw unwanted refl
        ])
  | inr other ↦ rw other (elim (Bool-cases (text_eq d.port p)) [
    | inl wanted ↦ rw (wanted, differs p c d other wanted) refl
    | inr unwanted ↦ rw unwanted (lookup-put_best p c best)
  ])
]

lookup-best_from :
    (p : Text) (candidates best : List Candidate)
    → lookup p (best_from best candidates) ≡ better (lookup p best) (champion p candidates)
unfolding best_from champion
lookup-best_from p [] best = right_none (lookup p best)
lookup-best_from p (c ∷ candidates) best = elim (Bool-cases (is_empty c.port)) [
  | inl nameless ↦ rw nameless (lookup-best_from p candidates best)
  | inr named ↦ rw named (
      lookup-best_from p candidates (put_best c best)
      ∙ rw (lookup-put_best p c best) (elim (Bool-cases (text_eq c.port p)) [
        | inl wanted ↦ rw wanted (better_assoc (lookup p best) (some c) (champion p candidates))
        | inr unwanted ↦ rw unwanted refl
      ]))
]

-- No two entries have the same port.
abbrev pub IsDistinct : List Candidate → Type 0
IsDistinct [] = Unit
IsDistinct (d ∷ best) = All (λ e. text_eq d.port e.port ≡ false) best × IsDistinct best

All-put_best :
    (P : Text → Type 0) (c : Candidate) (best : List Candidate)
    → P c.port
    → All (λ e. P e.port) best
    → All (λ e. P e.port) (put_best c best)
unfolding put_best
All-put_best P c [] hc hs = (hc, tt)
All-put_best P c (d ∷ best) hc hs = elim (Bool-cases (text_eq d.port c.port)) [
  | inl same ↦ rw same (
    subst P (sym (if_port (ltb_ℤ d.score c.score) c d (sym (text_eq_sound d.port c.port same))))
        hs.0,
    hs.1,
  )
  | inr other ↦ rw other (hs.0, All-put_best P c best hc hs.1)
]

put_best-IsDistinct :
    (c : Candidate) (best : List Candidate) → IsDistinct best → IsDistinct (put_best c best)
unfolding put_best
put_best-IsDistinct c [] h = (tt, tt)
put_best-IsDistinct c (d ∷ best) h = elim (Bool-cases (text_eq d.port c.port)) [
  | inl same ↦ rw same (
    subst (λ x. All (λ e. text_eq x e.port ≡ false) best)
        (sym (if_port (ltb_ℤ d.score c.score) c d (sym (text_eq_sound d.port c.port same)))) h.0,
    h.1,
  )
  | inr other ↦ rw other (
    All-put_best (λ x. text_eq d.port x ≡ false) c best other h.0,
    put_best-IsDistinct c best h.1,
  )
]

best_from-IsDistinct :
    (candidates best : List Candidate) → IsDistinct best → IsDistinct (best_from best candidates)
unfolding best_from
best_from-IsDistinct [] best h = h
best_from-IsDistinct (c ∷ candidates) best h = elim (Bool-cases (is_empty c.port)) [
  | inl nameless ↦ rw nameless (best_from-IsDistinct candidates best h)
  | inr named ↦
      rw named (best_from-IsDistinct candidates (put_best c best) (put_best-IsDistinct c best h))
]

lookup-In : (p : Text) (c : Candidate) (best : List Candidate) → lookup p best ≡ some c → In c best
unfolding lookup
lookup-In p c [] h = absurd (cc h)
lookup-In p c (d ∷ best) h = elim (Bool-cases (text_eq d.port p)) [
  | inl wanted ↦ inl (sym (some-injective _ _ (rw wanted at h)))
  | inr unwanted ↦ inr (lookup-In p c best (rw unwanted at h))
]

port_of_In :
    (d c : Candidate) (best : List Candidate)
    → All (λ e. text_eq d.port e.port ≡ false) best
    → In c best
    → text_eq d.port c.port ≡ false
port_of_In d c [] h found = absurd found
port_of_In d c (e ∷ best) h (inl same) = ap (λ x. text_eq d.port x.port) same ∙ h.0
port_of_In d c (e ∷ best) h (inr later) = port_of_In d c best h.1 later

In-lookup :
    (c : Candidate) (best : List Candidate)
    → IsDistinct best
    → In c best
    → lookup c.port best ≡ some c
unfolding lookup
In-lookup c [] h found = absurd found
In-lookup c (d ∷ best) h (inl same) =
    rw (ap (λ x. text_eq x.port c.port) (sym same) ∙ text_eq_refl c.port) (ap some (sym same))
In-lookup c (d ∷ best) h (inr later) =
    rw (port_of_In d c best h.0 later) (In-lookup c best h.1 later)

-- The entries of the map are the champions of their ports.
pub In-best_from :
    (c : Candidate) (candidates : List Candidate)
    → In c (best_from [] candidates) ↔ (champion c.port candidates ≡ some c)
unfolding lookup
In-best_from c candidates = (
  λ found.
      sym (lookup-best_from c.port candidates [])
      ∙ In-lookup c (best_from [] candidates) (best_from-IsDistinct candidates [] tt) found,
  λ wins.
      lookup-In c.port c (best_from [] candidates) (lookup-best_from c.port candidates [] ∙ wins),
)

IsDistinct-TellsApart : (best : List Candidate) → IsDistinct best → TellsApart ranks_before best
IsDistinct-TellsApart [] h = tt
IsDistinct-TellsApart (d ∷ best) h = (told best h.0, IsDistinct-TellsApart best h.1)
  where
    told :
        (es : List Candidate)
        → All (λ e. text_eq d.port e.port ≡ false) es
        → All (λ e. (ranks_before d e ≡ true) ⊎ (ranks_before e d ≡ true)) es
    told [] hs = tt
    told (e ∷ es) hs = (ranks_before_connected d e hs.0, told es hs.1)

pub best_from-TellsApart :
    (candidates : List Candidate) → TellsApart ranks_before (best_from [] candidates)
best_from-TellsApart candidates =
    IsDistinct-TellsApart (best_from [] candidates) (best_from-IsDistinct candidates [] tt)
