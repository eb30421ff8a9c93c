-- ===== src/Telegram/Markup/Commands.antt =====
-- The explanations of internal/notifier/telegram/explain.go as markup.
use at_message_forward.Prelude.{
  Bool, true, false, List, [], ◌∷◌, none, some, ◌≡◌, refl, All, if◌then◌else◌,
}
use at_message_forward.Text.{Text, codes, text_eq}
use at_message_forward.Telegram.Format.{escape}
use at_message_forward.Telegram.Parse.{prefixed_value, prefixed_csv, unquote}
use at_message_forward.Telegram.Explain.{
  coded, labelled, explain_pin, explain_cpin, explain_quality, explain_status, explain_registration,
  explain_technology, explain_operator, explain_function, explain_first, storage_item,
  storage_items, storage_labels, explain_storage,
}
use at_message_forward.Telegram.Markup.{inside, code_span, read, scan, scan-append, IsMarkup}
use at_message_forward.Telegram.Markup.Escape.{escape-IsPlain}

-- Lines that are markup each.
unfoldable pub AreMarkup : List Text → Type 0
AreMarkup lines = All IsMarkup lines

pub all : (lines : List Text) → All IsMarkup lines → AreMarkup lines
unfolding AreMarkup
all lines h = h

pub choose :
    (b : Bool) (xs ys : List Text) → AreMarkup xs → AreMarkup ys → AreMarkup (if b then xs else ys)
choose true xs ys hx hy = hx
choose false xs ys hx hy = hy

pub one : (s : Text) → IsMarkup s → AreMarkup (s ∷ [])
unfolding AreMarkup
one s h = (h, tt)

-- A label, and a value in a code element or as it is.
open_code : scan (inside none) (codes ": <code>") ≡ some (inside (some code_span))
unfolding scan read text_eq
open_code = refl

close_code : scan (inside (some code_span)) (codes "</code>.") ≡ some (inside none)
unfolding scan read text_eq
close_code = refl

colon : IsMarkup (codes ": ")
unfolding scan read
colon = refl

stop : IsMarkup (codes ".")
unfolding scan read
stop = refl

coded-IsMarkup : (label value : Text) → IsMarkup label → IsMarkup (coded label value)
coded-IsMarkup label value h = scan-append label _ (inside none) h (
    scan-append (codes ": <code>") _ (inside none) open_code (
      scan-append (escape value) _ (inside (some code_span)) (escape-IsPlain value (some code_span))
        close_code))

labelled-IsMarkup : (label value : Text) → IsMarkup label → IsMarkup (labelled label value)
labelled-IsMarkup label value h = scan-append label _ (inside none) h (
    scan-append (codes ": ") _ (inside none) colon
      (scan-append (escape value) _ (inside none) (escape-IsPlain value none) stop))

explain_pin-AreMarkup : (value : Text) → AreMarkup (explain_pin value)
unfolding scan read
explain_pin-AreMarkup value = choose _ _ _ (one (codes "SIM status: ready.") refl) (
    choose _ _ _ (one (codes "SIM status: PIN unlock required.") refl) (
      choose _ _ _ (one (codes "SIM status: PUK unlock required.") refl)
        (one (coded (codes "SIM status") value) (coded-IsMarkup (codes "SIM status") value refl))))

pub explain_cpin-AreMarkup : (lines : List Text) → AreMarkup (explain_cpin lines)
unfolding explain_cpin scan read
explain_cpin-AreMarkup lines =
    choose _ _ _ (one (codes "No SIM status was read.") refl)
      (explain_pin-AreMarkup (prefixed_value lines (codes "+CPIN:")))

pub explain_quality-IsMarkup : (values : List Text) → All IsMarkup (explain_quality values)
unfolding scan read
explain_quality-IsMarkup [] = (refl, tt)
explain_quality-IsMarkup (rssi ∷ []) = (refl, tt)
explain_quality-IsMarkup (rssi ∷ ber ∷ more) = (
  labelled-IsMarkup (codes "Signal strength") _ refl,
  (labelled-IsMarkup (codes "Bit error rate (BER)") _ refl, tt),
)

explain_status-IsMarkup :
    (name : Text) (values : List Text) → IsMarkup name → All IsMarkup (explain_status name values)
explain_status-IsMarkup name [] h = (unfold scan read in refl, tt)
explain_status-IsMarkup name (stat ∷ []) h = (labelled-IsMarkup name _ h, tt)
explain_status-IsMarkup name (mode ∷ stat ∷ more) h = (labelled-IsMarkup name _ h, tt)

pub explain_registration-IsMarkup :
    (eps : Bool) (lines : List Text) → All IsMarkup (explain_registration eps lines)
unfolding explain_registration scan read
explain_registration-IsMarkup false lines =
    explain_status-IsMarkup (codes "2G/3G network registration")
      (prefixed_csv lines (codes "+CREG:")) refl
explain_registration-IsMarkup true lines =
    explain_status-IsMarkup (codes "EPS/LTE network registration")
      (prefixed_csv lines (codes "+CEREG:")) refl

explain_technology-IsMarkup : (values : List Text) → All IsMarkup (explain_technology values)
explain_technology-IsMarkup [] = tt
explain_technology-IsMarkup (t ∷ more) =
    (labelled-IsMarkup (codes "Access technology") _ (unfold scan read in refl), tt)

pub explain_operator-IsMarkup : (values : List Text) → All IsMarkup (explain_operator values)
unfolding scan read
explain_operator-IsMarkup [] = (refl, tt)
explain_operator-IsMarkup (mode ∷ []) = (refl, tt)
explain_operator-IsMarkup (mode ∷ format ∷ []) = (refl, tt)
explain_operator-IsMarkup (mode ∷ format ∷ operator ∷ more) = (
  labelled-IsMarkup (codes "Network selection mode") _ refl,
  (coded-IsMarkup (codes "Operator") _ refl, explain_technology-IsMarkup more),
)

pub explain_function-IsMarkup : (values : List Text) → All IsMarkup (explain_function values)
unfolding scan read
explain_function-IsMarkup [] = (refl, tt)
explain_function-IsMarkup (mode ∷ more) = (labelled-IsMarkup (codes "Function mode") _ refl, tt)

no_label : IsMarkup (codes "No ")
unfolding scan read
no_label = refl

was_read : IsMarkup (codes " was read.")
unfolding scan read
was_read = refl

pub explain_first-IsMarkup :
    (label : Text) (lines : List Text) → All IsMarkup (explain_first label lines)
explain_first-IsMarkup label [] = (
  scan-append (codes "No ") _ (inside none) no_label
      (scan-append (escape label) _ (inside none) (escape-IsPlain label none) was_read),
  tt,
)
explain_first-IsMarkup label (line ∷ lines) =
    (coded-IsMarkup (escape label) line (escape-IsPlain label none), tt)

used_label : scan (inside (some code_span)) (codes "</code>, used ") ≡ some (inside none)
unfolding scan read text_eq
used_label = refl

total_label : IsMarkup (codes " / total ")
unfolding scan read
total_label = refl

storage_item-IsMarkup :
    (label name used total : Text) → IsMarkup label → IsMarkup (storage_item label name used total)
storage_item-IsMarkup label name used total h = scan-append label _ (inside none) h (
    scan-append (codes ": <code>") _ (inside none) open_code (
      scan-append (escape (unquote name)) _ (inside (some code_span))
        (escape-IsPlain (unquote name) (some code_span))
        (scan-append (codes "</code>, used ") _ (inside (some code_span)) used_label (
          scan-append (escape used) _ (inside none) (escape-IsPlain used none) (
            scan-append (codes " / total ") _ (inside none) total_label
              (scan-append (escape total) _ (inside none) (escape-IsPlain total none) stop))))))

storage_items-IsMarkup :
    (labels values : List Text) → All IsMarkup labels → All IsMarkup (storage_items labels values)
unfolding storage_items
storage_items-IsMarkup [] values h = tt
storage_items-IsMarkup (label ∷ labels) [] h = tt
storage_items-IsMarkup (label ∷ labels) (name ∷ []) h = tt
storage_items-IsMarkup (label ∷ labels) (name ∷ used ∷ []) h = tt
storage_items-IsMarkup (label ∷ labels) (name ∷ used ∷ total ∷ values) h =
    (storage_item-IsMarkup label name used total h.0, storage_items-IsMarkup labels values h.1)

pub explain_storage-IsMarkup : (values : List Text) → All IsMarkup (explain_storage values)
unfolding scan read
explain_storage-IsMarkup [] = (refl, tt)
explain_storage-IsMarkup (a ∷ []) = (refl, tt)
explain_storage-IsMarkup (a ∷ b ∷ []) = (refl, tt)
explain_storage-IsMarkup (a ∷ b ∷ c ∷ values) =
    storage_items-IsMarkup storage_labels (a ∷ b ∷ c ∷ values) (refl, (refl, (refl, tt)))
