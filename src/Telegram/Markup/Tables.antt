-- ===== src/Telegram/Markup/Tables.antt =====
-- The numbers that internal/notifier/telegram/explain.go prints, as markup.
use at_message_forward.Prelude.{
  ℕ, zero, suc, ◌+◌, ◌/◌, ◌%◌, ◌<◌, Bool, true, false, Option, some, [], ◌∷◌, ◌==◌, if◌then◌else◌,
  ◌≡◌, refl, arith,
}
use at_message_forward.Text.{Text}
use at_message_forward.Number.{show_ℕ, digits_from}
use at_message_forward.Telegram.Markup.{Element, inside, read, scan, IsPlain}

read_digit : (d : ℕ) (e : Option Element) → d < 10 → read (inside e) (48 + d) ≡ some (inside e)
unfolding read
read_digit d e h = ground arith

digit-IsPlain : (d : ℕ) (acc : Text) → d < 10 → IsPlain acc → IsPlain ((48 + d) ∷ acc)
unfolding scan
digit-IsPlain d acc h ha e = rw (read_digit d e h) (ha e)

choose : (b : Bool) (s t : Text) → IsPlain s → IsPlain t → IsPlain (if b then s else t)
choose true s t hs ht = hs
choose false s t hs ht = ht

digits_from-IsPlain : (rounds n : ℕ) (acc : Text) → IsPlain acc → IsPlain (digits_from rounds n acc)
unfolding digits_from
digits_from-IsPlain zero n acc h = h
digits_from-IsPlain (suc rounds) n acc h =
    let next : IsPlain ((48 + n % 10) ∷ acc) = digit-IsPlain (n % 10) acc (omega arith) h in
    choose (n / 10 == 0) ((48 + n % 10) ∷ acc) _ next
      (digits_from-IsPlain rounds (n / 10) ((48 + n % 10) ∷ acc) next)

pub show_ℕ-IsPlain : (n : ℕ) → IsPlain (show_ℕ n)
unfolding show_ℕ
show_ℕ-IsPlain n = digits_from-IsPlain 20 n [] (λ e. unfold scan in refl)
