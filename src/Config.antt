-- ===== src/Config.antt =====
-- internal/config/config.go. The file system and the JSON decoder are parameters: opening a file fails or
-- gives what decoding its content into a configuration returns.
pub mod Laws
mod Examples
use at_message_forward.Prelude.{
  zero, suc, Bool, true, false, List, [], if◌then◌else◌, Result, ok, err, ℤ, pos, negsuc,
}
use at_message_forward.Text.{Text, codes, is_empty}

abbrev pub default_path : Text
default_path = codes "config.json"

pub record Config : Type 0 where
  pub transport : Text
  pub port : Text
  pub baud : ℤ
  pub init_modem : Bool
  pub sim_ready_timeout_seconds : ℤ
  pub usb_vendor : Text
  pub usb_product : Text
  pub usb_interface : ℤ
  pub telegram_raw : Bool
  pub telegram_token : Text
  pub telegram_chat : Text

abbrev pub transport_serial : Text
transport_serial = codes "serial"

abbrev pub transport_usb : Text
transport_usb = codes "usb"

abbrev pub default : Config
default = record {
  transport = transport_serial;
  port = [];
  baud = pos 115200;
  init_modem = true;
  sim_ready_timeout_seconds = pos 120;
  usb_vendor = [];
  usb_product = [];
  usb_interface = negsuc 0;
  telegram_raw = false;
  telegram_token = [];
  telegram_chat = [];
}

abbrev pub text_or : Text → Text → Text
text_or value fallback = if is_empty value then fallback else value

abbrev pub int_or : ℤ → ℤ → ℤ
int_or (pos zero) fallback = fallback
int_or (pos (suc n)) fallback = pos (suc n)
int_or (negsuc n) fallback = negsuc n

unfoldable pub apply_defaults : Config → Config → Config
apply_defaults defaults c = record c {
  transport = text_or c.transport defaults.transport;
  port = text_or c.port defaults.port;
  baud = int_or c.baud defaults.baud;
  sim_ready_timeout_seconds = int_or c.sim_ready_timeout_seconds defaults.sim_ready_timeout_seconds;
  telegram_token = text_or c.telegram_token defaults.telegram_token;
  telegram_chat = text_or c.telegram_chat defaults.telegram_chat;
}

-- What `os.Open` returns: no such file, another error, or a file with what `Decode` makes of it.
pub data Opened : Type 0 where
  not_exist : Opened
  open_error : Text → Opened
  file : (Config → Result Text Config) → Opened

pub data LoadError : Type 0 where
  open_failed decode_failed : Text → LoadError

abbrev pub decoded : Result Text Config → Result LoadError Config
decoded (err e) = err (decode_failed e)
decoded (ok cfg) = ok (apply_defaults default cfg)

abbrev pub load_opened : Opened → Result LoadError Config
load_opened not_exist = ok default
load_opened (open_error e) = err (open_failed e)
load_opened (file decode) = decoded (decode default)

unfoldable pub load : (Text → Opened) → Text → Result LoadError Config
load open_file path = load_opened (open_file (text_or path default_path))
