-- ===== src/Transport/Serial/Score.antt =====
-- `ScorePortName`, `scoreMarkerEvidence`, `scoreLinuxTTYInfo`, `readLinuxTTYUSBInfo` and the lists of
-- candidates of internal/transport/serial/serial.go. The file system and the serial library are
-- parameters: what a link resolves to, what a file holds, which ports there are. A resolved path is
-- the list of its names, the last first, so that `filepath.Dir` takes one off.
use at_message_forward.Prelude.{
  ℕ, Bool, false, ◌&&◌, ◌||◌, not, Option, none, some, List, [], ◌∷◌, ◌++◌, map, if◌then◌else◌,
  ◌==◌, ltb, ℤ, pos, negsuc, ◌+ℤ◌, sub_ℕ,
}
use at_message_forward.Text.{
  Text, codes, is_empty, contains, equal_fold, text_eq, to_lower, trim_space, trim_right,
}
use at_message_forward.Number.{parse_int}
use at_message_forward.Transport.Serial.{Candidate}
use at_message_forward.Transport.Serial.Rank.{rank_candidates}

-- `strings.ToLower`.
abbrev pub lower : Text → Text
lower s = map to_lower s

abbrev pub is_slash : ℕ → Bool
is_slash c = c == b'/'

-- What stands behind the last slash.
unfoldable pub last_name : Text → Text → Text
last_name name [] = name
last_name name (c ∷ path) =
    if is_slash c then last_name [] path else last_name (name ++ c ∷ []) path

-- `filepath.Base`: `.` for an empty path, `/` for one of slashes alone.
unfoldable pub base : Text → Text
base [] = codes "."
base (c ∷ path) =
    let stripped = trim_right is_slash (c ∷ path) in
    if is_empty stripped then codes "/" else last_name [] stripped

abbrev pub modem_name_markers : List Text
modem_name_markers =
    codes "eigencomm"
    ∷ codes "air780"
    ∷ codes "luat"
    ∷ codes "simcom"
    ∷ codes "sim7600"
    ∷ codes "sim7000"
    ∷ codes "sim800"
    ∷ codes "a7670"
    ∷ codes "quectel"
    ∷ codes "ec20"
    ∷ codes "ec25"
    ∷ codes "eg25"
    ∷ codes "bg96"
    ∷ codes "fibocom"
    ∷ codes "telit"
    ∷ codes "u-blox"
    ∷ codes "ublox"
    ∷ codes "meig"
    ∷ codes "ml307"
    ∷ codes "gosuncn"
    ∷ []

unfoldable pub contains_any : Text → List Text → Bool
contains_any value [] = false
contains_any value (marker ∷ markers) = contains value marker || contains_any value markers

unfoldable pub has_marker : List Text → Bool
has_marker [] = false
has_marker (value ∷ values) = contains_any (lower value) modem_name_markers || has_marker values

unfoldable pub score_marker_evidence : List Text → ℕ
score_marker_evidence values = if has_marker values then 100 else 0

abbrev pub interface_bonus : Text → ℕ
interface_bonus name =
    if contains name (codes "if03") then 30 else if contains name (codes "if05") then 10 else 0

abbrev pub modem_bonus : Text → ℕ
modem_bonus name =
    if contains name (codes "ttyacm") || contains name (codes "usbmodem") then 10 else 0

unfoldable pub score_port_name : Text → ℤ
score_port_name path =
    let name = lower (base path) in
    pos (score_marker_evidence (name ∷ [])) +ℤ pos (interface_bonus name) +ℤ pos (modem_bonus name)

pub record LinuxTtyUsbInfo : Type 0 where
  pub vendor_id : Text
  pub product_id : Text
  pub manufacturer : Text
  pub product : Text
  pub interface : Text
  pub interface_number : ℤ

abbrev pub no_info : LinuxTtyUsbInfo
no_info = record {
  vendor_id = [];
  product_id = [];
  manufacturer = [];
  product = [];
  interface = [];
  interface_number = pos 0;
}

abbrev pub device_score : LinuxTtyUsbInfo → ℤ
device_score info =
    if equal_fold info.vendor_id (codes "19d1") && equal_fold info.product_id (codes "0001")
    then pos 150
    else pos 0

abbrev pub interface_score : Text → ℤ
interface_score name =
    if text_eq name (codes "at") || text_eq name (codes "usb uart")
    then pos 40
    else if text_eq name (codes "log")
    then negsuc 29
    else if text_eq name (codes "ppp") || text_eq name (codes "rndis")
    then negsuc 49
    else pos 0

-- `score -= info.InterfaceNumber` above 5.
abbrev pub number_score : ℤ → ℤ
number_score (negsuc n) = pos 0
number_score (pos n) =
    if n == 3 then pos 30 else if n == 5 then pos 10 else if ltb 5 n then sub_ℕ 0 n else pos 0

unfoldable pub score_linux_tty_info : LinuxTtyUsbInfo → ℤ
score_linux_tty_info info =
    pos (score_marker_evidence (info.manufacturer ∷ info.product ∷ info.interface ∷ []))
    +ℤ device_score info
    +ℤ interface_score (lower info.interface)
    +ℤ number_score info.interface_number

-- `firstNonEmpty` of two values.
abbrev pub first_non_empty : Text → Text → Text
first_non_empty a b = if is_empty a then b else a

-- What the files of a directory hold; none for a file that cannot be read.
abbrev pub Files : Type 0
Files = List Text → Text → Option Text

abbrev pub trimmed : Option Text → Text
trimmed none = []
trimmed (some content) = trim_space content

unfoldable pub read_trimmed : Files → List Text → Text → Text
read_trimmed files dir name = trimmed (files dir name)

abbrev pub number_or : ℤ → Option ℤ → ℤ
number_or old none = old
number_or old (some n) = n

-- `strconv.Atoi` of the file, if there is no number yet; an empty text is no number.
abbrev pub is_zero : ℤ → Bool
is_zero (pos n) = n == 0
is_zero (negsuc n) = false

-- One round of the loop.
unfoldable pub read_directory : Files → List Text → LinuxTtyUsbInfo → LinuxTtyUsbInfo
read_directory files dir info = record {
  vendor_id = first_non_empty info.vendor_id (read_trimmed files dir (codes "idVendor"));
  product_id = first_non_empty info.product_id (read_trimmed files dir (codes "idProduct"));
  manufacturer = first_non_empty info.manufacturer (read_trimmed files dir (codes "manufacturer"));
  product = first_non_empty info.product (read_trimmed files dir (codes "product"));
  interface = first_non_empty info.interface (read_trimmed files dir (codes "interface"));
  interface_number =
      if is_zero info.interface_number
      then number_or info.interface_number
          (parse_int (read_trimmed files dir (codes "bInterfaceNumber")))
      else info.interface_number;
}

abbrev pub is_complete : LinuxTtyUsbInfo → Bool
is_complete info =
    not (is_empty info.vendor_id) && not (is_empty info.product_id) && not (is_empty info.interface)

-- The loop, from a directory up to the root.
unfoldable pub read_up : Files → List Text → LinuxTtyUsbInfo → LinuxTtyUsbInfo
read_up files [] info = info
read_up files (name ∷ parent) info =
    let here = read_directory files (name ∷ parent) info in
    let above = read_up files parent here in if is_complete here then here else above

-- `links` is `filepath.EvalSymlinks` of the device of a terminal.
unfoldable pub read_linux_tty_usb_info :
    Files → (Text → Option (List Text)) → Text → LinuxTtyUsbInfo
read_linux_tty_usb_info files links tty = from_link (links tty)
  where
    from_link : Option (List Text) → LinuxTtyUsbInfo
    from_link none = no_info
    from_link (some dir) = read_up files dir no_info

-- The host: whether it runs Linux, and what is in its file system.
pub record Host : Type 0 where
  pub is_linux : Bool
  pub files : Files
  pub links : Text → Option (List Text)

unfoldable pub score_linux_tty : Host → Text → ℤ
score_linux_tty host port =
    if host.is_linux
    then score_linux_tty_info (read_linux_tty_usb_info host.files host.links (base port))
    else pos 0

abbrev pub candidate : Text → Text → ℤ → Candidate
candidate port source score = record {
  port = port;
  source = source;
  score = score;
  probe_attempted = false;
  probe_ok = false;
  probe_error = [];
}

-- `serialLibraryCandidates`, with the ports that the library lists; none for an error.
unfoldable pub serial_library_candidates : Host → Option (List Text) → List Candidate
serial_library_candidates host none = []
serial_library_candidates host (some ports) =
    map
      (λ port.
        candidate port (codes "serial-list")
          (pos 10 +ℤ score_port_name port +ℤ score_linux_tty host port))
      ports

-- A link below /dev/serial/by-id, and the port that it resolves to, if it does.
pub record Link : Type 0 where
  pub path : Text
  pub port : Option Text

abbrev pub by_id : Host → Text → Option Text → List Candidate → List Candidate
by_id host path none rest = rest
by_id host path (some port) rest =
    candidate port (codes "by-id:" ++ base path)
      (score_port_name path +ℤ score_linux_tty host port +ℤ pos 50)
    ∷ rest

unfoldable pub linux_serial_by_id_candidates : Host → List Link → List Candidate
linux_serial_by_id_candidates host [] = []
linux_serial_by_id_candidates host (link ∷ links) =
    by_id host link.path link.port (linux_serial_by_id_candidates host links)

unfoldable pub candidates : Host → List Link → Option (List Text) → List Candidate
candidates host links ports = rank_candidates (
    (if host.is_linux then linux_serial_by_id_candidates host links else [])
    ++ serial_library_candidates host ports)
