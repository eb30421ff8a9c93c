-- ===== src/Telegram/Parse.antt =====
-- internal/notifier/telegram/parse.go: the lines of a response.
pub mod Csv
use at_message_forward.Prelude.{
  ℕ, Bool, true, false, not, ◌&&◌, ◌||◌, List, [], ◌∷◌, ◌++◌, ◌==◌, if◌then◌else◌,
}
use at_message_forward.Text.{
  Text, codes, trim_left, trim_right, trim_space, has_prefix, trim_prefix, text_eq, is_empty,
}

unfoldable pub prefixed_value : List Text → Text → Text
prefixed_value [] prefix = []
prefixed_value (line ∷ lines) prefix =
    if has_prefix (trim_space line) prefix
    then trim_space (trim_prefix (trim_space line) prefix)
    else prefixed_value lines prefix

-- The loop of `splitCSV`; `field` is what the builder holds.
unfoldable pub csv_from : Bool → Text → Text → List Text
csv_from in_quote field [] = trim_space field ∷ []
csv_from in_quote field (r ∷ value) =
    if r == b'"'
    then csv_from (not in_quote) (field ++ r ∷ []) value
    else if r == b',' && not in_quote
    then trim_space field ∷ csv_from in_quote [] value
    else csv_from in_quote (field ++ r ∷ []) value

unfoldable pub split_csv : Text → List Text
split_csv value = csv_from false [] value

unfoldable pub prefixed_csv : List Text → Text → List Text
prefixed_csv lines prefix =
    let value = prefixed_value lines prefix in if is_empty value then [] else split_csv value

unfoldable pub response_lines : List Text → List Text
response_lines [] = []
response_lines (line ∷ lines) =
    let t = trim_space line in
    let rest = response_lines lines in
    if is_empty t || text_eq t (codes "OK") || text_eq t (codes "ERROR") then rest else t ∷ rest

unfoldable pub has_error_line : List Text → Bool
has_error_line [] = false
has_error_line (line ∷ lines) = text_eq (trim_space line) (codes "ERROR") || has_error_line lines

-- The loop of `okOnly`.
unfoldable pub ok_only_from : Bool → List Text → Bool
ok_only_from seen_ok [] = seen_ok
ok_only_from seen_ok (line ∷ lines) =
    let t = trim_space line in
    if is_empty t
    then ok_only_from seen_ok lines
    else if text_eq t (codes "OK")
    then ok_only_from true lines
    else false

unfoldable pub ok_only : List Text → Bool
ok_only lines = ok_only_from false lines

abbrev pub is_quote : ℕ → Bool
is_quote c = c == b'"'

unfoldable pub unquote : Text → Text
unquote value = trim_right is_quote (trim_left is_quote (trim_space value))

pub record ListedSms : Type 0 where
  pub index : Text
  pub status : Text
  pub from : Text
  pub at : Text
  pub text : Text

-- The fields of a `+CMGL:` line, by how many values there are.
abbrev pub listed_sms : List Text → Text → ListedSms
listed_sms [] text = record {
  index = codes "?";
  status = codes "unknown";
  from = codes "unknown";
  at = [];
  text = text;
}
listed_sms (i ∷ []) text = record {
  index = i;
  status = codes "unknown";
  from = codes "unknown";
  at = [];
  text = text;
}
listed_sms (i ∷ s ∷ []) text = record {
  index = i;
  status = unquote s;
  from = codes "unknown";
  at = [];
  text = text;
}
listed_sms (i ∷ s ∷ f ∷ []) text = record {
  index = i;
  status = unquote s;
  from = unquote f;
  at = [];
  text = text;
}
listed_sms (i ∷ s ∷ f ∷ n ∷ []) text = record {
  index = i;
  status = unquote s;
  from = unquote f;
  at = [];
  text = text;
}
listed_sms (i ∷ s ∷ f ∷ n ∷ a ∷ more) text = record {
  index = i;
  status = unquote s;
  from = unquote f;
  at = unquote a;
  text = text;
}

abbrev pub is_body : Text → Bool
is_body next =
    not (is_empty next)
    && not (has_prefix next (codes "+"))
    && not (text_eq next (codes "OK"))
    && not (text_eq next (codes "ERROR"))

-- `msg.text`: the line behind the header, if it is one of text.
abbrev pub body_of : List Text → Text
body_of [] = []
body_of (line ∷ lines) = let next = trim_space line in if is_body next then next else []

unfoldable pub parse_cmgl : List Text → List ListedSms
parse_cmgl [] = []
parse_cmgl (raw ∷ lines) =
    let line = trim_space raw in
    let rest = parse_cmgl lines in
    if has_prefix line (codes "+CMGL:")
    then listed_sms (split_csv (trim_space (trim_prefix line (codes "+CMGL:")))) (body_of lines)
      ∷ rest
    else rest
