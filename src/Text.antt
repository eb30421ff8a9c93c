-- ===== src/Text.antt =====
-- Go's `string` as the list of its code points, with what the source uses of the packages
-- `strings`, `unicode`, `unicode/utf8` and `strconv`. A text stands for valid UTF-8; the `len` of
-- the Go string is `byte_len`. Case mapping is written for the ASCII letters and for the code
-- points outside ASCII that Go maps to one; every comparison of the source is against ASCII.
pub mod Spaces
use Prim.Native.Char.{code}
use at_message_forward.Prelude.{
  ℕ, ◌+◌, ◌-◌, String, Bool, true, false, ◌&&◌, ◌||◌, Option, none, some, List, [], ◌∷◌, map, ltb,
  leb, ◌==◌, if◌then◌else◌,
}

abbrev pub Text : Type 0
Text = List ℕ

-- A literal of the source.
abbrev pub codes : String → Text
codes String.[] = []
codes (String.◌∷◌ c s) = code c ∷ codes s

abbrev pub within : ℕ → ℕ → ℕ → Bool
within lo hi c = leb lo c && leb c hi

-- `unicode.IsSpace`.
unfoldable pub is_space : ℕ → Bool
is_space c =
    within 0x09 0x0D c
    || c == 0x20
    || c == 0x85
    || c == 0xA0
    || c == 0x1680
    || within 0x2000 0x200A c
    || within 0x2028 0x2029 c
    || c == 0x202F
    || c == 0x205F
    || c == 0x3000

-- `strings.TrimLeftFunc`, `strings.TrimRightFunc`.
unfoldable pub trim_left : (ℕ → Bool) → Text → Text
trim_left p [] = []
trim_left p (c ∷ s) = if p c then trim_left p s else c ∷ s

-- `s` with `c` in front, unless nothing is left and `c` is cut too.
abbrev pub keep : (ℕ → Bool) → ℕ → Text → Text
keep p c [] = if p c then [] else c ∷ []
keep p c (d ∷ s) = c ∷ d ∷ s

unfoldable pub trim_right : (ℕ → Bool) → Text → Text
trim_right p [] = []
trim_right p (c ∷ s) = keep p c (trim_right p s)

-- `strings.TrimSpace`.
unfoldable pub trim_space : Text → Text
unfolding trim_left trim_right is_space
trim_space s = trim_right is_space (trim_left is_space s)

unfoldable pub text_eq : Text → Text → Bool
text_eq [] [] = true
text_eq [] (d ∷ t) = false
text_eq (c ∷ s) [] = false
text_eq (c ∷ s) (d ∷ t) = c == d && text_eq s t

abbrev pub is_empty {ℓ} : {A : Type ℓ} → List A → Bool
is_empty [] = true
is_empty (c ∷ s) = false

-- The text behind the prefix, if it has that prefix.
unfoldable pub cut_prefix : Text → Text → Option Text
cut_prefix [] s = some s
cut_prefix (c ∷ p) [] = none
cut_prefix (c ∷ p) (d ∷ s) = if c == d then cut_prefix p s else none

abbrev pub is_some {ℓ} : {A : Type ℓ} → Option A → Bool
is_some none = false
is_some (some a) = true

abbrev pub or_else {ℓ} : {A : Type ℓ} → Option A → A → A
or_else none d = d
or_else (some a) d = a

-- `strings.HasPrefix`, `strings.TrimPrefix`, `strings.Contains`.
unfoldable pub has_prefix : Text → Text → Bool
unfolding cut_prefix
has_prefix s p = is_some (cut_prefix p s)

unfoldable pub trim_prefix : Text → Text → Text
unfolding cut_prefix
trim_prefix s p = or_else (cut_prefix p s) s

unfoldable pub contains : Text → Text → Bool
unfolding has_prefix
contains [] p = has_prefix [] p
contains (c ∷ s) p = has_prefix (c ∷ s) p || contains s p

-- `unicode.ToLower`, `unicode.ToUpper` and the simple folding of `strings.EqualFold`.
unfoldable pub to_lower : ℕ → ℕ
to_lower c =
    if within b'A' b'Z' c
    then c + 32
    else if c == 0x212A
    then b'k'
    else if c == 0x130
    then b'i'
    else c

unfoldable pub to_upper : ℕ → ℕ
to_upper c =
    if within b'a' b'z' c
    then c - 32
    else if c == 0x131
    then b'I'
    else if c == 0x17F
    then b'S'
    else c

unfoldable pub fold_case : ℕ → ℕ
fold_case c =
    if within b'A' b'Z' c
    then c + 32
    else if c == 0x212A
    then b'k'
    else if c == 0x17F
    then b's'
    else c

unfoldable pub equal_fold : Text → Text → Bool
unfolding fold_case text_eq
equal_fold s t = text_eq (map fold_case s) (map fold_case t)

-- `utf8.RuneLen` of a valid code point, and `len` of the string.
unfoldable pub rune_len : ℕ → ℕ
rune_len c = if ltb c 0x80 then 1 else if ltb c 0x800 then 2 else if ltb c 0x10000 then 3 else 4

unfoldable pub byte_len : Text → ℕ
unfolding rune_len
byte_len [] = 0
byte_len (c ∷ s) = rune_len c + byte_len s

unfoldable pub is_digit : ℕ → Bool
is_digit c = within b'0' b'9' c

-- The value of a hexadecimal digit, either case.
unfoldable pub hex_digit : ℕ → Option ℕ
hex_digit c =
    if within b'0' b'9' c
    then some (c - b'0')
    else if within b'a' b'f' c
    then some (c - b'a' + 10)
    else if within b'A' b'F' c
    then some (c - b'A' + 10)
    else none

-- `<` of Go strings: bytes in order, which for valid UTF-8 is code points in order.
unfoldable pub text_lt : Text → Text → Bool
text_lt s [] = false
text_lt [] (d ∷ t) = true
text_lt (c ∷ s) (d ∷ t) = ltb c d || (c == d && text_lt s t)
