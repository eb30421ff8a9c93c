-- ===== src/Config/Laws.antt =====
-- What `Load` of internal/config/config.go returns.
use at_message_forward.Prelude.{
  zero, suc, [], ◌∷◌, Result, ok, err, ℤ, pos, negsuc, ◌≡◌, ◌≢◌, refl, sym, ok-injective, arith,
}
use mathlib.Core.Path.{subst}
use at_message_forward.Text.{Text, codes}
use at_message_forward.Config.{
  Config, default, default_path, text_or, int_or, apply_defaults, Opened, not_exist, open_error,
  file, decoded, load_opened, load,
}

-- The settings that a session cannot do without are there.
abbrev pub IsComplete : Config → Type 0
IsComplete c = (c.transport ≢ []) × (c.baud ≢ pos 0) × (c.sim_ready_timeout_seconds ≢ pos 0)

-- A value that is not the zero one is kept, and the zero one gives way to the fallback.
abbrev pub IsOr : {A : Type 0} → A → A → A → A → Type 0
IsOr blank fallback value result =
    (value ≢ blank → result ≡ value) × (value ≡ blank → result ≡ fallback)

-- The transport, the baud rate and the timeout fall back to the documented defaults; all else is kept,
-- a number of the USB interface of zero too.
abbrev pub Keeps : Config → Config → Type 0
Keeps c d =
    IsOr [] (codes "serial") c.transport d.transport
    × (d.port ≡ c.port)
    × IsOr (pos 0) (pos 115200) c.baud d.baud
    × (d.init_modem ≡ c.init_modem)
    × IsOr (pos 0) (pos 120) c.sim_ready_timeout_seconds d.sim_ready_timeout_seconds
    × (d.usb_vendor ≡ c.usb_vendor)
    × (d.usb_product ≡ c.usb_product)
    × (d.usb_interface ≡ c.usb_interface)
    × (d.telegram_raw ≡ c.telegram_raw)
    × (d.telegram_token ≡ c.telegram_token)
    × (d.telegram_chat ≡ c.telegram_chat)

-- What was found at the path explains the configuration.
abbrev pub Explains : Opened → Config → Type 0
Explains not_exist c = c ≡ default
Explains (open_error e) c = ⊥
Explains (file decode) c = (d : Config) × (decode default ≡ ok d) × Keeps d c

text_or-nonempty : (value fallback : Text) → fallback ≢ [] → text_or value fallback ≢ []
text_or-nonempty [] fallback h = h
text_or-nonempty (c ∷ value) fallback h = λ e. cc e

text_or-IsOr : (value fallback : Text) → IsOr [] fallback value (text_or value fallback)
text_or-IsOr [] fallback = (λ h. absurd (h refl), λ h. refl)
text_or-IsOr (c ∷ value) fallback = (λ h. refl, λ h. absurd (cc h))

text_or_empty : (value : Text) → text_or value [] ≡ value
text_or_empty [] = refl
text_or_empty (c ∷ value) = refl

int_or-nonzero : (value fallback : ℤ) → fallback ≢ pos 0 → int_or value fallback ≢ pos 0
int_or-nonzero (pos zero) fallback h = h
int_or-nonzero (pos (suc n)) fallback h = ground arith
int_or-nonzero (negsuc n) fallback h = λ e. cc e

int_or-IsOr : (value fallback : ℤ) → IsOr (pos 0) fallback value (int_or value fallback)
int_or-IsOr (pos zero) fallback = (λ h. absurd (h refl), λ h. refl)
int_or-IsOr (pos (suc n)) fallback = (λ h. refl, λ h. absurd (ground (arith, h)))
int_or-IsOr (negsuc n) fallback = (λ h. refl, λ h. absurd (cc h))

defaults-IsComplete : (c : Config) → IsComplete (apply_defaults default c)
unfolding apply_defaults
defaults-IsComplete c = (
  text_or-nonempty c.transport default.transport (λ e. cc e),
  int_or-nonzero c.baud default.baud (ground arith),
  int_or-nonzero c.sim_ready_timeout_seconds default.sim_ready_timeout_seconds (ground arith),
)

defaults-Keeps : (c : Config) → Keeps c (apply_defaults default c)
unfolding apply_defaults
defaults-Keeps c = (
  text_or-IsOr c.transport default.transport,
  text_or_empty c.port,
  int_or-IsOr c.baud default.baud,
  refl,
  int_or-IsOr c.sim_ready_timeout_seconds default.sim_ready_timeout_seconds,
  refl,
  refl,
  refl,
  refl,
  text_or_empty c.telegram_token,
  text_or_empty c.telegram_chat,
)

decoded_ok :
    (r : Result Text Config) (c : Config)
    → decoded r ≡ ok c
    → IsComplete c × ((d : Config) × (r ≡ ok d) × Keeps d c)
decoded_ok (err e) c h = absurd (cc h)
decoded_ok (ok d) c h =
    let same : apply_defaults default d ≡ c = ok-injective h in
    (
      subst IsComplete same (defaults-IsComplete d),
      (d, refl, subst (Keeps d) same (defaults-Keeps d)),
    )

load_opened_ok : (o : Opened) (c : Config) → load_opened o ≡ ok c → IsComplete c × Explains o c
load_opened_ok not_exist c h =
    let same : default ≡ c = ok-injective h in
    (subst IsComplete same (λ e. cc e, ground arith, ground arith), sym same)
load_opened_ok (open_error e) c h = absurd (cc h)
load_opened_ok (file decode) c h = decoded_ok (decode default) c h

-- A configuration that `Load` returns names a transport, a baud rate and a timeout for the SIM that are
-- not zero. If there is no file at the path, or at config.json for an empty path, it is the default
-- one. Else decoding the file over the default one gave a configuration whose transport, baud rate and
-- timeout are replaced by "serial", 115200 and 120 if they are zero and kept if not, and all of whose
-- other settings are kept, a `usb_interface` of zero included.
pub load_ok :
    (open_file : Text → Opened) (path : Text) (c : Config)
    → load open_file path ≡ ok c
    → IsComplete c × Explains (open_file (text_or path default_path)) c
unfolding load
load_ok open_file path c h = load_opened_ok (open_file (text_or path default_path)) c h
