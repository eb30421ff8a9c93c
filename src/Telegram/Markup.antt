-- ===== src/Telegram/Markup.antt =====
-- The HTML that a Telegram message may hold, as the messages of internal/notifier/telegram use it:
-- `<b>` and `<code>` that are closed again and do not nest, and the five entities of
-- `html.EscapeString`. A text is read by an automaton.
pub mod Escape
pub mod Tables
pub mod Commands
pub mod Messages
pub mod Switch
pub mod Trim
pub mod Reply
use at_message_forward.Prelude.{
  Option-cases, inl, inr, ℕ, Bool, true, false, ◌||◌, Option, none, some, and_then, List, [], ◌∷◌,
  ◌++◌, ◌==◌, if◌then◌else◌, ◌≡◌, refl,
}
use mathlib.Core.Option.{some-injective}
use at_message_forward.Text.{Text, codes, text_eq}

pub data Element : Type 0 where
  bold code_span : Element

-- In the text of an open element, in a tag, or in an entity, with what has been read of its name.
pub data State : Type 0 where
  inside : Option Element → State
  in_tag : Option Element → Text → State
  in_entity : Option Element → Text → State

abbrev pub tag_end : Option Element → Text → Option State
tag_end none name =
    if text_eq name (codes "b")
    then some (inside (some bold))
    else if text_eq name (codes "code")
    then some (inside (some code_span))
    else none
tag_end (some bold) name = if text_eq name (codes "/b") then some (inside none) else none
tag_end (some code_span) name = if text_eq name (codes "/code") then some (inside none) else none

abbrev pub is_entity : Text → Bool
is_entity name =
    text_eq name (codes "amp")
    || text_eq name (codes "lt")
    || text_eq name (codes "gt")
    || text_eq name (codes "#34")
    || text_eq name (codes "#39")

unfoldable pub read : State → ℕ → Option State
read (inside e) c =
    if c == b'<'
    then some (in_tag e [])
    else if c == b'>'
    then none
    else if c == b'&'
    then some (in_entity e [])
    else some (inside e)
read (in_tag e name) c = if c == b'>' then tag_end e name else some (in_tag e (name ++ c ∷ []))
read (in_entity e name) c =
    if c == b';'
    then (if is_entity name then some (inside e) else none)
    else some (in_entity e (name ++ c ∷ []))

unfoldable pub scan : State → Text → Option State
scan st [] = some st
scan st (c ∷ s) = and_then (read st c) (λ next. scan next s)

-- Text that leaves the open element as it is, and a whole message.
abbrev pub IsPlain : Text → Type 0
IsPlain s = (e : Option Element) → scan (inside e) s ≡ some (inside e)

abbrev pub IsMarkup : Text → Type 0
IsMarkup s = scan (inside none) s ≡ some (inside none)

pub scan-append :
    (s t : Text) (st : State) {mid : State} {out : State}
    → scan st s ≡ some mid
    → scan mid t ≡ some out
    → scan st (s ++ t) ≡ some out
unfolding scan
scan-append [] t st hs ht = rw (some-injective _ _ hs) ht
scan-append (c ∷ s) t st hs ht = elim (Option-cases (read st c)) [
  | inl stuck ↦ absurd (cc (rw stuck at hs))
  | inr (next, reads) ↦ rw reads (scan-append s t next (rw reads at hs) ht)
]
