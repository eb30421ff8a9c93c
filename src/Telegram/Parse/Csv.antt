-- ===== src/Telegram/Parse/Csv.antt =====
-- `splitCSV` of internal/notifier/telegram/parse.go on fields that commas join.
use at_message_forward.Prelude.{
  Bool, true, false, not, ◌&&◌, List, [], ◌∷◌, ◌++◌, map, ◌==◌, if◌then◌else◌, ◌≡◌, refl, ap, ◌∙◌,
  All, append_assoc, append-nil, Bool-cases, inl, inr,
}
use at_message_forward.Text.{Text, trim_space}
use at_message_forward.Telegram.Parse.{csv_from, split_csv}

-- Quotation marks come in pairs, and every comma stands between the two of a pair.
abbrev pub closes : Bool → Text → Bool
closes in_quote [] = not in_quote
closes in_quote (r ∷ s) =
    if r == b'"'
    then closes (not in_quote) s
    else if r == b',' && not in_quote
    then false
    else closes in_quote s

abbrev pub IsField : Text → Type 0
IsField s = closes false s ≡ true

abbrev pub join : Text → List Text → Text
join field [] = field
join field (next ∷ fields) = field ++ b',' ∷ join next fields

csv_from_end :
    (s : Text) (q : Bool) (acc : Text)
    → closes q s ≡ true
    → csv_from q acc s ≡ trim_space (acc ++ s) ∷ []
unfolding csv_from
csv_from_end [] q acc h = rw (append-nil acc) refl
csv_from_end (r ∷ s) q acc h = elim (Bool-cases (r == b'"')) [
  | inl quote ↦ rw quote (
      csv_from_end s (not q) (acc ++ r ∷ []) (rw quote at h)
      ∙ ap (λ t. trim_space t ∷ []) (append_assoc acc (r ∷ []) s))
  | inr other ↦ elim (Bool-cases (r == b',' && not q)) [
    | inl comma ↦ absurd (cc (rw (other, comma) at h))
    | inr letter ↦
        rw (other, letter)
          (csv_from_end s q (acc ++ r ∷ []) (rw (other, letter) at h)
            ∙ ap (λ t. trim_space t ∷ []) (append_assoc acc (r ∷ []) s))
  ]
]

csv_from_comma :
    (s : Text) (q : Bool) (acc rest : Text)
    → closes q s ≡ true
    → csv_from q acc (s ++ b',' ∷ rest) ≡ trim_space (acc ++ s) ∷ csv_from false [] rest
unfolding csv_from
csv_from_comma [] false acc rest h = rw (append-nil acc) refl
csv_from_comma [] true acc rest h = absurd (cc h)
csv_from_comma (r ∷ s) q acc rest h = elim (Bool-cases (r == b'"')) [
  | inl quote ↦ rw quote (
      csv_from_comma s (not q) (acc ++ r ∷ []) rest (rw quote at h)
      ∙ ap (λ t. trim_space t ∷ csv_from false [] rest) (append_assoc acc (r ∷ []) s))
  | inr other ↦ elim (Bool-cases (r == b',' && not q)) [
    | inl comma ↦ absurd (cc (rw (other, comma) at h))
    | inr letter ↦
        rw (other, letter)
          (csv_from_comma s q (acc ++ r ∷ []) rest (rw (other, letter) at h)
            ∙ ap (λ t. trim_space t ∷ csv_from false [] rest) (append_assoc acc (r ∷ []) s))
  ]
]

-- `splitCSV` takes the comma-joined fields apart again, each with its outer space cut, if the
-- quotation marks of each field come in pairs and every comma in it stands within a pair.
pub split_csv-join :
    (field : Text) (fields : List Text)
    → IsField field
    → All IsField fields
    → split_csv (join field fields) ≡ map trim_space (field ∷ fields)
unfolding split_csv
split_csv-join field [] h hs = csv_from_end field false [] h
split_csv-join field (next ∷ fields) h hs =
    csv_from_comma field false [] (join next fields) h
    ∙ ap (◌∷◌ (trim_space field)) (split_csv-join next fields hs.0 hs.1)
