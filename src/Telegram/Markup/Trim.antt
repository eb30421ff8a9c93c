-- ===== src/Telegram/Markup/Trim.antt =====
-- Markup and its outer space, which `formatCommandResult` of internal/notifier/telegram/format.go cuts.
use mathlib.Core.Option.{some-injective}
use at_message_forward.Prelude.{
  ℕ, true, false, Option, none, some, [], ◌∷◌, ◌==◌, ◌≡◌, refl, sym, ◌∙◌, ap, Bool-cases,
  Option-cases, inl, inr, ==_iff,
}
use at_message_forward.Text.{Text, is_space, trim_left, trim_right, trim_space, keep}
use at_message_forward.Telegram.Markup.{
  Element, State, inside, in_tag, in_entity, read, scan, IsMarkup,
}

-- No special character is a space.
not_space : (c k : ℕ) → is_space k ≡ false → is_space c ≡ true → (c == k) ≡ false
not_space c k not_k space = elim (Bool-cases (c == k)) [
  | inl same ↦ absurd (cc (sym not_k ∙ sym (ap is_space ((==_iff c k).0 same)) ∙ space))
  | inr other ↦ other
]

module _ (c : ℕ) (space : is_space c ≡ true) where
  read_space : (e : Option Element) → read (inside e) c ≡ some (inside e)
  unfolding read is_space
  read_space e =
      rw (not_space c b'<' refl space, not_space c b'>' refl space, not_space c b'&' refl space)
        refl

  read_space_back : (st : State) → read st c ≡ some (inside none) → st ≡ inside none
  unfolding read is_space
  read_space_back (inside e) h = some-injective _ _ (sym (read_space e) ∙ h)
  read_space_back (in_tag e name) h = absurd (cc (rw (not_space c b'>' refl space) at h))
  read_space_back (in_entity e name) h = absurd (cc (rw (not_space c b';' refl space) at h))

trim_left-IsMarkup : (s : Text) → IsMarkup s → IsMarkup (trim_left is_space s)
unfolding trim_left scan
trim_left-IsMarkup [] h = h
trim_left-IsMarkup (c ∷ s) h = elim (Bool-cases (is_space c)) [
  | inl space ↦ rw space (trim_left-IsMarkup s (rw (read_space c space none) at h))
  | inr other ↦ rw other h
]

-- The last character that is kept, in front of what is kept behind it.
keep-scan :
    (c : ℕ) (st next : State) (kept : Text)
    → read st c ≡ some next
    → scan next kept ≡ some (inside none)
    → scan st (keep is_space c kept) ≡ some (inside none)
unfolding scan
keep-scan c st next (d ∷ kept) reads h = rw reads h
keep-scan c st next [] reads h = elim (Bool-cases (is_space c)) [
  | inl space ↦ rw space (ap some (read_space_back c space st (reads ∙ h)))
  | inr other ↦ rw (other, reads) h
]

trim_right-scan :
    (s : Text) (st : State)
    → scan st s ≡ some (inside none)
    → scan st (trim_right is_space s) ≡ some (inside none)
unfolding trim_right scan
trim_right-scan [] st h = h
trim_right-scan (c ∷ s) st h = elim (Option-cases (read st c)) [
  | inl stuck ↦ absurd (cc (rw stuck at h))
  | inr (next, reads) ↦
      keep-scan c st next (trim_right is_space s) reads (trim_right-scan s next (rw reads at h))
]

pub trim_space-IsMarkup : (s : Text) → IsMarkup s → IsMarkup (trim_space s)
unfolding trim_space
trim_space-IsMarkup s h =
    trim_right-scan (trim_left is_space s) (inside none) (trim_left-IsMarkup s h)
