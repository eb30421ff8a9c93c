-- ===== src/Transport/Examples.antt =====
-- The theorems on internal/transport at concrete inputs.
use at_message_forward.Prelude.{
  ℕ, zero, suc, ◌^◌, ◌*◌, ◌+◌, ◌++◌, ◌==◌, true, false, none, some, List, [], ◌∷◌, ltb,
  if◌then◌else◌, ok, err, ℤ, pos, negsuc, ◌≡◌, ◌≢◌, ◌↔◌, arith,
}
use at_message_forward.Text.{Text, codes, text_eq}
use at_message_forward.Sorting.Laws.{In, IsAscending}
use at_message_forward.Transport.Serial.{Candidate}
use at_message_forward.Transport.Serial.Rank.{rank_candidates}
use at_message_forward.Transport.Serial.Rank.Laws.{IsRanking, rank_candidates_iff}
use at_message_forward.Transport.Serial.Probe
use at_message_forward.Transport.Serial.Probe.{
  Round, Port, answered, or_default_timeout, probe_opened_at_port,
}
use at_message_forward.Transport.Serial.Probe.Laws.{Answered, probe_opened_at_port-answered}
use at_message_forward.Transport.Serial.Detect.{Probed, auto_detect_with_baud}
use at_message_forward.Transport.Serial.Detect.Laws.{IsChoice, auto_detect_with_baud-IsChoice}
use at_message_forward.Transport.Usb
use at_message_forward.Transport.Usb.{Options, Error}
use at_message_forward.Transport.Usb.Descriptor.{
  bulk, interrupt, direction_in, direction_out, Endpoint, Setting, DeviceDesc, candidate_interfaces,
  has_vendor_bulk_interface,
}
use at_message_forward.Transport.Usb.Descriptor.Laws.{Qualifies, candidate_interfaces_iff}
use at_message_forward.Transport.Usb.Handles.{run}
use at_message_forward.Transport.Usb.Open.{
  Interface, UsbConfig, Device, Bus, Link, open_link, close,
}
use at_message_forward.Transport.Usb.Open.Laws.{IsSettled, handles_of, open_link-IsSettled}
use at_message_forward.Transport.Usb.Listing.{list}
use at_message_forward.Transport.Usb.Listing.Laws.{IsReport, list-reports}
use at_message_forward.Transport.Usb.Reader.{Reader, pending, Turn, cancelled, transfer}
use at_message_forward.Transport.Usb.Reader.Laws.{all_received, read_all, read_all-conserves}
use at_message_forward.Transport.Select.{parse_hex_id}
use at_message_forward.Transport.Select.Laws.{large_prefix, spell, hex_id, parse_hex_id-spell}

abbrev found : Text → Text → ℤ → Candidate
found port source score = record {
  port = port;
  source = source;
  score = score;
  probe_attempted = false;
  probe_ok = false;
  probe_error = [];
}

-- One port twice, and another one with the same score as the better entry.
abbrev candidates : List Candidate
candidates =
    found (codes "/dev/ttyUSB1") (codes "serial-list") (pos 10)
    ∷ found (codes "/dev/ttyUSB1") (codes "by-id:usb-Quectel") (pos 150)
    ∷ found (codes "/dev/ttyUSB0") (codes "serial-list") (pos 150)
    ∷ []

abbrev ranked : List Candidate
ranked =
    found (codes "/dev/ttyUSB0") (codes "serial-list") (pos 150)
    ∷ found (codes "/dev/ttyUSB1") (codes "by-id:usb-Quectel") (pos 150)
    ∷ []

rank_candidates_iff_example : (ranked ≡ rank_candidates candidates) ↔ IsRanking candidates ranked
rank_candidates_iff_example = rank_candidates_iff candidates ranked

-- An echo, then an answer, then silence behind the deadline.
abbrev heard : ℕ → Text → Round
heard time bytes = record {
  tested_at = time;
  now = time;
  timeout_error = none;
  received = bytes;
  read_error = none;
}

abbrev rounds : ℕ → Round
rounds zero = heard 1000 (codes "AT\r\r\n")
rounds (suc zero) = heard 2000 (codes "OK\r\n")
rounds (suc (suc k)) = heard (3 * 10 ^ 9) []

abbrev port : Port
port = record { timeout_error = none; written = ok 3; start = 500; rounds = rounds }

probe_opened_at_port-answered_example :
    (probe_opened_at_port 3 port (pos 0) ≢ none)
    × (probe_opened_at_port 3 port (pos 0) ≡ some answered
        → (port.written ≡ ok 3)
          × Answered port.rounds (port.start + Probe.or_default_timeout (pos 0)) 0 [])
probe_opened_at_port-answered_example = probe_opened_at_port-answered 2 port (pos 0) (omega arith)

-- Only the second port answers.
abbrev probe : Text → Probed
probe name = record { answers = text_eq name (codes "/dev/ttyUSB1"); error = none }

auto_detect_with_baud-IsChoice_example : IsChoice probe ranked (auto_detect_with_baud probe ranked)
auto_detect_with_baud-IsChoice_example = auto_detect_with_baud-IsChoice probe ranked

abbrev endpoint_in : Endpoint
endpoint_in = record { number = 4; transfer_type = bulk; direction = direction_in }

abbrev endpoint_out : Endpoint
endpoint_out = record { number = 3; transfer_type = bulk; direction = direction_out }

abbrev endpoint_event : Endpoint
endpoint_event = record { number = 5; transfer_type = interrupt; direction = direction_in }

abbrev vendor_setting : List Endpoint → Setting
vendor_setting eps = record { class = 0xFF; endpoints = eps }

-- Interfaces 3 and 2 qualify, interface 1 has no bulk endpoint in, interface 0 is of another class.
abbrev desc : DeviceDesc
desc = record {
  vendor = 0x2C7C;
  product = 0x0125;
  configs =
      record {
        interfaces =
            record {
              number = 3;
              alt_settings = vendor_setting (endpoint_in ∷ endpoint_out ∷ []) ∷ [];
            }
            ∷ record {
              number = 1;
              alt_settings = vendor_setting (endpoint_event ∷ endpoint_out ∷ []) ∷ [];
            }
            ∷ record {
              number = 2;
              alt_settings =
                  vendor_setting (endpoint_event ∷ endpoint_in ∷ endpoint_out ∷ [])
                  ∷ vendor_setting (endpoint_in ∷ endpoint_out ∷ [])
                  ∷ [];
            }
            ∷ record {
              number = 0;
              alt_settings =
                  record { class = 10; endpoints = endpoint_in ∷ endpoint_out ∷ [] } ∷ [];
            }
            ∷ [];
      }
      ∷ [];
}

candidate_interfaces_iff_example :
    IsAscending ltb (candidate_interfaces desc (negsuc 0))
    × ((n : ℕ) → In n (candidate_interfaces desc (negsuc 0)) ↔ Qualifies desc n)
candidate_interfaces_iff_example = candidate_interfaces_iff desc 0

-- Interface 3 answers with positions, interface 2 with OK.
abbrev interface_at : ℕ → Interface
interface_at n = record {
  endpoints = endpoint_in ∷ endpoint_out ∷ [];
  in_endpoint = λ e. none;
  out_endpoint = λ e. none;
  write_error = none;
  reads = λ t.
      record { received = if n == 2 then codes "\r\nOK\r\n" else codes "$GPRMC"; error = none }
      ∷ [];
}

abbrev usb_config : UsbConfig
usb_config = record { claim = λ n. ok (interface_at n) }

abbrev modem : Device
modem = record {
  desc = desc;
  config = ok usb_config;
  manufacturer = codes "Quectel";
  product = codes "EC25";
}

-- Two devices: the modem, and one whose configuration cannot be claimed.
abbrev bus : Bus
bus = record {
  devices = λ wanted. modem ∷ record modem { config = err (codes "busy") } ∷ [];
  enumerate_error = λ wanted. none;
  show_id = λ n. codes "2c7c";
}

abbrev options : Options
options = record { vendor = 0x2C7C; product = 0; forced = negsuc 0; probe_timeout = pos 0 }

open_link-IsSettled_example :
    IsSettled (open_link options bus)
    × ((l : Link) → run (close false l ++ close true l) (handles_of l) ≡ some [])
open_link-IsSettled_example = open_link-IsSettled options bus

list-reports_example :
    (run (list (pos 0) bus).trace [] ≡ some [])
    × IsReport
        (Usb.or_default_timeout (pos 0))
        (bus.devices has_vendor_bulk_interface)
        (list (pos 0) bus).result
list-reports_example = list-reports (pos 0) bus

abbrev reader : Reader
reader = record { stage = 0 ∷ 0 ∷ 0 ∷ 0 ∷ []; from = 0; size = 0 }

-- Reads of two, one and four bytes: one transfer of three, an error, one more, and the end.
abbrev turns : List Turn
turns =
    transfer (1 ∷ 2 ∷ 3 ∷ []) none false
    ∷ transfer [] (some (codes "stall")) false
    ∷ transfer (4 ∷ []) none false
    ∷ cancelled
    ∷ []

abbrev sizes : List ℕ
sizes = 2 ∷ 1 ∷ 4 ∷ 4 ∷ 4 ∷ []

read_all-conserves_example :
    (read_all sizes reader turns).0
      ++ (pending (read_all sizes reader turns).1.0
          ++ all_received (read_all sizes reader turns).1.1)
    ≡ pending reader ++ all_received turns
read_all-conserves_example = read_all-conserves sizes reader turns

parse_hex_id-spell_example : parse_hex_id (spell large_prefix (hex_id 0x2C7C)) ≡ ok 0x2C7C
parse_hex_id-spell_example = parse_hex_id-spell large_prefix 0x2C7C (omega arith)
