-- ===== src/Transport/Usb/Listing/Laws.antt =====
-- The entries of `List` of internal/transport/usb/usb_cgo.go, and the handles that it opens and closes.
use at_message_forward.Prelude.{
  ℕ, ◌+◌, true, Option, none, some, List, [], ◌∷◌, ◌++◌, Result, ok, err, ℤ, negsuc, ◌≡◌, refl, sym,
  ap, ◌∙◌, ◌↔◌, ◌⊎◌, inl, inr, Bool-cases, ok-injective, through, either, same_iff,
}
use mathlib.Core.Path.{subst}
use at_message_forward.Text.{Text}
use at_message_forward.Transport.Usb.{Candidate, Error, or_default_timeout}
use at_message_forward.Transport.Usb.Descriptor.{candidate_interfaces, has_vendor_bulk_interface}
use at_message_forward.Transport.Usb.Descriptor.Laws.{Some}
use at_message_forward.Transport.Usb.Handles.{
  Handle, context, configuration, interface, Event, opens, closes, Traced, run,
}
use at_message_forward.Transport.Usb.Handles.Laws.{run_then, run_close, run_close_then, left_open}
use at_message_forward.Transport.Usb.Open.{
  Interface, UsbConfig, Device, Bus, claim_interface, probe_at, open_all, close_all,
}
use at_message_forward.Transport.Usb.Open.Laws.{
  claim_interface-IsTidy, open_devices, run-open_all, run-close_all,
}
use at_message_forward.Transport.Usb.Listing.{
  answered, first_answering, with_answer, configured, list_device, list_devices, listing, list,
}

-- Behind the events the same handles are open as before.
abbrev pub IsBalanced : List Event → Type 0
IsBalanced events = (held : List Handle) → run events held ≡ some held

nothing-IsBalanced : IsBalanced []
unfolding run
nothing-IsBalanced held = refl

answered_balanced :
    (i timeout n : ℕ) (r : Result Error Interface) (rest : Traced (Option ℕ))
    → IsBalanced rest.trace
    → (held : List Handle)
    → run (answered i timeout n r rest).trace (left_open (λ intf. interface i n ∷ []) r held)
      ≡ some held
answered_balanced i timeout n (err e) rest balanced held = balanced held
answered_balanced i timeout n (ok intf) rest balanced held =
    elim (Bool-cases (probe_at intf timeout)) [
      | inl answers ↦ rw answers (run_close (interface i n) held)
      | inr silent ↦ rw silent (run_close_then (interface i n) rest.trace held (balanced held))
    ]

first_answering-IsBalanced :
    (i timeout : ℕ) (cfg : UsbConfig) (nums : List ℕ)
    → IsBalanced (first_answering i timeout cfg nums).trace
unfolding first_answering
first_answering-IsBalanced i timeout cfg [] = nothing-IsBalanced
first_answering-IsBalanced i timeout cfg (n ∷ nums) = λ held.
    let claim : Traced (Result Error Interface) = claim_interface i cfg n in
    let rest : Traced (Option ℕ) = first_answering i timeout cfg nums in
    run_then claim.trace ((answered i timeout n claim.result rest).trace) held
      (claim_interface-IsTidy i cfg n held)
      (answered_balanced i timeout n claim.result rest
        (first_answering-IsBalanced i timeout cfg nums) held)

-- Opening a handle, what leaves it alone, and closing it.
around-IsBalanced :
    (h : Handle) (events : List Event)
    → IsBalanced events
    → IsBalanced (opens h ∷ (events ++ closes h ∷ []))
around-IsBalanced h events balanced held =
    unfold run in
    run_then events (closes h ∷ []) (h ∷ held) (balanced (h ∷ held)) (run_close h held)

configured-IsBalanced :
    (i timeout : ℕ) (dev : Device) (r : Result Text UsbConfig)
    → IsBalanced (configured i timeout dev r).trace
configured-IsBalanced i timeout dev (err e) = nothing-IsBalanced
configured-IsBalanced i timeout dev (ok cfg) =
    let nums : List ℕ = candidate_interfaces dev.desc (negsuc 0) in
    around-IsBalanced (configuration i) ((first_answering i timeout cfg nums).trace)
      (first_answering-IsBalanced i timeout cfg nums)

list_devices-IsBalanced :
    (i timeout : ℕ) (devs : List Device) → IsBalanced (list_devices i timeout devs).trace
unfolding list_devices list_device
list_devices-IsBalanced i timeout [] = nothing-IsBalanced
list_devices-IsBalanced i timeout (d ∷ devs) = λ held.
    run_then ((list_device i timeout d).trace) ((list_devices (i + 1) timeout devs).trace) held
      (configured-IsBalanced i timeout d d.config held)
      (list_devices-IsBalanced (i + 1) timeout devs held)

listing-IsBalanced :
    (timeout : ℕ) (devs : List Device) (error : Option Text)
    → IsBalanced (listing timeout devs error).trace
listing-IsBalanced timeout [] (some e) = nothing-IsBalanced
listing-IsBalanced timeout [] none = nothing-IsBalanced
listing-IsBalanced timeout (d ∷ devs) error = λ held.
    let all : List Device = d ∷ devs in
    let found : List Event = (list_devices 0 timeout all).trace in
    run_then (open_all 0 all) (found ++ close_all 0 all) held (run-open_all 0 all held) (
      run_then found (close_all 0 all) (open_devices 0 all ++ held)
        (list_devices-IsBalanced 0 timeout all (open_devices 0 all ++ held))
        (run-close_all 0 all held))

-- The interface is claimed and answers AT in time.
abbrev pub Answers : ℕ → ℕ → UsbConfig → ℕ → Type 0
Answers i timeout cfg n =
    (intf : Interface) × ((claim_interface i cfg n).result ≡ ok intf)
    × (probe_at intf timeout ≡ true)

-- The device's configuration is there, and one of the interfaces worth probing answers.
abbrev pub IsReachable : ℕ → ℕ → Device → Type 0
IsReachable i timeout dev =
    (cfg : UsbConfig) × (dev.config ≡ ok cfg)
    × Some (Answers i timeout cfg) (candidate_interfaces dev.desc (negsuc 0))

-- What the entry of a device says.
abbrev pub Reports : ℕ → ℕ → Device → Candidate → Type 0
Reports i timeout dev c =
    (c.vid ≡ dev.desc.vendor)
    × (c.pid ≡ dev.desc.product)
    × ((c.probe_ok ≡ true) ↔ IsReachable i timeout dev)

-- One entry for each device, in their order.
abbrev pub ReportsAll : ℕ → ℕ → List Device → List Candidate → Type 0
ReportsAll i timeout [] [] = Unit
ReportsAll i timeout [] (c ∷ cs) = ⊥
ReportsAll i timeout (d ∷ devs) [] = ⊥
ReportsAll i timeout (d ∷ devs) (c ∷ cs) =
    Reports i timeout d c × ReportsAll (i + 1) timeout devs cs

abbrev IsFound : Option ℕ → Type 0
IsFound o = (n : ℕ) × (o ≡ some n)

answered_iff :
    (i timeout : ℕ) (cfg : UsbConfig) (n : ℕ) (r : Result Error Interface)
    (rest : Traced (Option ℕ))
    → (claim_interface i cfg n).result ≡ r
    → IsFound (answered i timeout n r rest).result ↔ (Answers i timeout cfg n ⊎ IsFound rest.result)
answered_iff i timeout cfg n (err e) rest claimed =
    (inr, λ h. elim h [ inl answer ↦ absurd (cc (sym claimed ∙ answer.1)) | inr found ↦ found ])
answered_iff i timeout cfg n (ok intf) rest claimed = elim (Bool-cases (probe_at intf timeout)) [
  | inl answers ↦ rw answers (λ h. inl (intf, claimed, answers), λ h. (n, refl))
  | inr silent ↦ rw silent (
    inr,
    λ h. elim h [
      | inl answer ↦ absurd (
          cc (
            sym answer.2
            ∙ ap (λ x. probe_at x timeout) (ok-injective (sym answer.1 ∙ claimed))
            ∙ silent))
      | inr found ↦ found
    ],
  )
]

first_answering_iff :
    (i timeout : ℕ) (cfg : UsbConfig) (nums : List ℕ)
    → IsFound (first_answering i timeout cfg nums).result ↔ Some (Answers i timeout cfg) nums
unfolding first_answering
first_answering_iff i timeout cfg [] = (λ h. absurd (cc h.1), λ h. absurd h)
first_answering_iff i timeout cfg (n ∷ nums) =
    through
      (answered_iff i timeout cfg n ((claim_interface i cfg n).result)
        (first_answering i timeout cfg nums) refl)
      (either same_iff (first_answering_iff i timeout cfg nums))

with_answer_iff : (dev : Device) (o : Option ℕ) → ((with_answer dev o).probe_ok ≡ true) ↔ IsFound o
with_answer_iff dev none = (λ h. absurd (cc h), λ h. absurd (cc h.1))
with_answer_iff dev (some n) = (λ h. (n, refl), λ h. refl)

with_answer_ids :
    (dev : Device) (o : Option ℕ)
    → ((with_answer dev o).vid ≡ dev.desc.vendor) × ((with_answer dev o).pid ≡ dev.desc.product)
with_answer_ids dev none = (refl, refl)
with_answer_ids dev (some n) = (refl, refl)

configured-Reports :
    (i timeout : ℕ) (dev : Device) (r : Result Text UsbConfig)
    → dev.config ≡ r
    → Reports i timeout dev (configured i timeout dev r).result
configured-Reports i timeout dev (err e) same =
    (refl, refl, (λ h. absurd (cc h), λ h. absurd (cc (sym same ∙ h.1))))
configured-Reports i timeout dev (ok cfg) same =
    let nums : List ℕ = candidate_interfaces dev.desc (negsuc 0) in
    let first : Option ℕ = (first_answering i timeout cfg nums).result in
    let answers : IsFound first ↔ Some (Answers i timeout cfg) nums =
      first_answering_iff i timeout cfg nums in
    (
      (with_answer_ids dev first).0,
      (with_answer_ids dev first).1,
      through (through (with_answer_iff dev first) answers) (
        λ h. (cfg, same, h),
        λ h. subst (λ c. Some (Answers i timeout c) nums) (ok-injective (sym h.1 ∙ same)) h.2,
      ),
    )

list_devices-Reports :
    (i timeout : ℕ) (devs : List Device)
    → ReportsAll i timeout devs (list_devices i timeout devs).result
unfolding list_devices list_device
list_devices-Reports i timeout [] = tt
list_devices-Reports i timeout (d ∷ devs) =
    (configured-Reports i timeout d d.config refl, list_devices-Reports (i + 1) timeout devs)

-- The entries that are returned are those of the devices that were opened.
abbrev pub IsReport : ℕ → List Device → Result Error (List Candidate) → Type 0
IsReport timeout devs (ok cs) = ReportsAll 0 timeout devs cs
IsReport timeout devs (err e) = devs ≡ []

listing-IsReport :
    (timeout : ℕ) (devs : List Device) (error : Option Text)
    → IsReport timeout devs (listing timeout devs error).result
listing-IsReport timeout [] (some e) = refl
listing-IsReport timeout [] none = tt
listing-IsReport timeout (d ∷ devs) error = list_devices-Reports 0 timeout (d ∷ devs)

-- `List` closes all that it opened, on every path. It fails only if no device was opened; else it
-- returns one entry for each device opened, in their order, with the device's ids, and an entry
-- says that the probe went well exactly if the device's configuration is there and one of the
-- interfaces worth probing can be claimed and answers AT in time.
pub list-reports :
    (probe_timeout : ℤ) (bus : Bus)
    → (run (list probe_timeout bus).trace [] ≡ some [])
      × IsReport
          (or_default_timeout probe_timeout)
          (bus.devices has_vendor_bulk_interface)
          (list probe_timeout bus).result
unfolding list
list-reports probe_timeout bus =
    let timeout : ℕ = or_default_timeout probe_timeout in
    let devs : List Device = bus.devices has_vendor_bulk_interface in
    let error : Option Text = bus.enumerate_error has_vendor_bulk_interface in
    (
      around-IsBalanced context ((listing timeout devs error).trace)
          (listing-IsBalanced timeout devs error) [],
      listing-IsReport timeout devs error,
    )
