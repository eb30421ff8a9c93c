-- ===== src/Sms/Indication/Commas.antt =====
-- The commas of a header of internal/sms/sms.go.
use at_message_forward.Prelude.{ℕ, [], ◌∷◌, ◌++◌, ◌≡◌, ap, sym, ◌∙◌, arith}
use mathlib.Core.Path.{subst}
use at_message_forward.Text.{Text, is_digit}
use at_message_forward.Sms.Indication.Spaces.{Spaces, Digits, Lacks, IsLength}

pub Lacks-append : (stop : ℕ) (a b : Text) → Lacks stop a → Lacks stop b → Lacks stop (a ++ b)
Lacks-append stop [] b ha hb = hb
Lacks-append stop (c ∷ a) b ha hb = (ha.0, Lacks-append stop a b ha.1 hb)

pub Lacks-Spaces : (w : Text) → Spaces w → Lacks b',' w
Lacks-Spaces [] h = tt
Lacks-Spaces (c ∷ w) h = (ground arith, Lacks-Spaces w h.1)

pub Lacks-Digits : (d : Text) → Digits d → Lacks b',' d
Lacks-Digits [] h = tt
Lacks-Digits (c ∷ d) h = (unfold is_digit in ground (arith, h.0), Lacks-Digits d h.1)

-- No comma behind the comma.
pub Lacks-IsLength : (t d : Text) → IsLength t d → Lacks b',' t
Lacks-IsLength t d l = subst (Lacks b',') (sym (l.splits ∙ ap (λ x. l.before ++ x) l.ends.splits)) (
    Lacks-append b',' l.before (d ++ l.ends.spaces) (Lacks-Spaces l.before l.are_spaces) (
      Lacks-append b',' d l.ends.spaces (Lacks-Digits d l.ends.digits)
        (Lacks-Spaces l.ends.spaces l.ends.are_spaces)))

pub not-Lacks : (stop : ℕ) (b u : Text) → ¬ Lacks stop (b ++ stop ∷ u)
not-Lacks stop [] u h = ground (arith, h.0)
not-Lacks stop (c ∷ b) u h = not-Lacks stop b u h.1

-- The last comma of a text is in one place.
pub last_comma_unique :
    (a b t u : Text) → a ++ b',' ∷ t ≡ b ++ b',' ∷ u → Lacks b',' t → Lacks b',' u → t ≡ u
last_comma_unique [] [] t u e ht hu = ground arith
last_comma_unique [] (c ∷ b) t u e ht hu =
    absurd (not-Lacks b',' b u (subst (Lacks b',') (ground arith) ht))
last_comma_unique (c ∷ a) [] t u e ht hu =
    absurd (not-Lacks b',' a t (subst (Lacks b',') (ground arith) hu))
last_comma_unique (c ∷ a) (d ∷ b) t u e ht hu = last_comma_unique a b t u (ground arith) ht hu
