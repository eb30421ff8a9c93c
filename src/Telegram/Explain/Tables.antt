-- ===== src/Telegram/Explain/Tables.antt =====
-- The tables of internal/notifier/telegram/explain.go.
use at_message_forward.Prelude.{
  ℕ, ◌-◌, ◌*◌, ◌&&◌, ◌||◌, ◌++◌, leb, ◌==◌, if◌then◌else◌, ℤ, pos, negsuc,
}
use at_message_forward.Number.{show_ℕ, show_ℤ}
use at_message_forward.Text.{Text, codes, trim_space, text_eq}

abbrev pub level_of : ℕ → Text
level_of v = if leb 20 v then codes "good" else if leb 10 v then codes "fair" else codes "weak"

-- `-113 + 2*v` is negative for these.
abbrev pub rssi_level : ℕ → Text
rssi_level v = level_of v ++ (codes ", about -" ++ (show_ℕ (113 - 2 * v) ++ codes " dBm"))

abbrev pub unknown_value : Text → Text
unknown_value value = codes "unknown value " ++ value

unfoldable pub format_rssi : ℤ → Text
format_rssi (negsuc n) = unknown_value (show_ℤ (negsuc n))
format_rssi (pos v) =
    if v == 99
    then codes "unknown"
    else if v == 0
    then codes "very weak, about -113 dBm or lower"
    else if v == 1
    then codes "very weak, about -111 dBm"
    else if leb 2 v && leb v 30
    then rssi_level v
    else if v == 31
    then codes "excellent, about -51 dBm or higher"
    else unknown_value (show_ℤ (pos v))

unfoldable pub format_ber : Text → Text
format_ber value =
    let v = trim_space value in
    if text_eq v (codes "99")
    then codes "unknown or not detectable"
    else if text_eq v (codes "0")
    then codes "lowest"
    else if text_eq v (codes "1") || text_eq v (codes "2")
    then codes "low"
    else if text_eq v (codes "3") || text_eq v (codes "4")
    then codes "medium"
    else if text_eq v (codes "5") || text_eq v (codes "6") || text_eq v (codes "7")
    then codes "high, link quality may be poor"
    else unknown_value value

unfoldable pub registration_status : Text → Text
registration_status value =
    let v = trim_space value in
    if text_eq v (codes "0")
    then codes "not registered, not searching"
    else if text_eq v (codes "1")
    then codes "registered on home network"
    else if text_eq v (codes "2")
    then codes "not registered, searching"
    else if text_eq v (codes "3")
    then codes "registration denied"
    else if text_eq v (codes "4")
    then codes "unknown status"
    else if text_eq v (codes "5")
    then codes "registered while roaming"
    else unknown_value value

unfoldable pub operator_mode : Text → Text
operator_mode value =
    let v = trim_space value in
    if text_eq v (codes "0")
    then codes "automatic selection"
    else if text_eq v (codes "1")
    then codes "manual selection"
    else if text_eq v (codes "2")
    then codes "deregistered from network"
    else if text_eq v (codes "3")
    then codes "set operator format only"
    else if text_eq v (codes "4")
    then codes "manual first, automatic fallback"
    else unknown_value value

unfoldable pub access_technology : Text → Text
access_technology value =
    let v = trim_space value in
    if text_eq v (codes "0")
    then codes "GSM"
    else if text_eq v (codes "2")
    then codes "UTRAN/3G"
    else if text_eq v (codes "7")
    then codes "LTE/E-UTRAN"
    else if text_eq v (codes "8")
    then codes "EC-GSM-IoT"
    else if text_eq v (codes "9")
    then codes "NB-IoT"
    else unknown_value value

unfoldable pub function_mode : Text → Text
function_mode value =
    let v = trim_space value in
    if text_eq v (codes "0")
    then codes "minimum functionality"
    else if text_eq v (codes "1")
    then codes "full functionality"
    else if text_eq v (codes "4")
    then codes "airplane mode / RF disabled"
    else unknown_value value
