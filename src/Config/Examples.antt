-- ===== src/Config/Examples.antt =====
-- The theorem on internal/config/config.go at a file that sets a port and a baud rate of zero.
use at_message_forward.Prelude.{Result, ok, [], pos, ◌≡◌, refl}
use at_message_forward.Text.{Text, codes}
use at_message_forward.Config.{
  Config, default, default_path, text_or, Opened, file, apply_defaults, load,
}
use at_message_forward.Config.Laws.{IsComplete, Explains, load_ok}

abbrev with_port : Config → Result Text Config
with_port c = ok (record c { port = codes "/dev/ttyUSB2"; baud = pos 0 })

abbrev open_file : Text → Opened
open_file path = file with_port

abbrev loaded : Config
loaded = record default { port = codes "/dev/ttyUSB2" }

decoding : load open_file [] ≡ ok loaded
unfolding load apply_defaults
decoding = refl

load_ok_example : IsComplete loaded × Explains (open_file (text_or [] default_path)) loaded
load_ok_example = load_ok open_file [] loaded decoding
