-- ===== src/Transport/Usb/Descriptor/Laws.antt =====
-- Which interfaces `candidateInterfaces` of internal/transport/usb/usb_cgo.go returns, in which order.
use at_message_forward.Prelude.{
  ℕ, Bool, true, false, not, ◌&&◌, List, [], ◌∷◌, ◌++◌, ltb, ◌==◌, if◌then◌else◌, negsuc, ◌≡◌, refl,
  sym, ◌⊎◌, inl, inr, ◌↔◌, Bool-cases, All-append, arith, ==_iff, and_iff, or_iff, either, both,
  through, one_more, nothing_more, same_iff, empty_before,
}
use mathlib.Core.Logic.{◌≢◌}
use mathlib.Core.Path.{subst}
use at_message_forward.Sorting.Laws.{In, IsAscending, TellsApart, In-sort, sort-IsAscending}
use at_message_forward.Transport.Usb.Descriptor.{
  TransferType, control, isochronous, bulk, interrupt, Direction, direction_in, direction_out,
  Endpoint, Setting, InterfaceDesc, ConfigDesc, DeviceDesc, is_bulk, is_in, is_out, has_bulk, seen,
  is_vendor_bulk, scan_settings, scan_interfaces, scan_configs, candidate_interfaces,
}

-- Some item of the list has the property.
abbrev pub Some : {A : Type 0} → (A → Type 0) → List A → Type 0
Some P [] = ⊥
Some P (x ∷ xs) = P x ⊎ Some P xs

abbrev pub IsBulk : Direction → Endpoint → Type 0
IsBulk d ep = (ep.transfer_type ≡ bulk) × (ep.direction ≡ d)

-- A setting of the vendor's class with a bulk endpoint in either direction.
abbrev pub IsVendorBulk : Setting → Type 0
IsVendorBulk alt =
    (alt.class ≡ 0xFF)
    × (Some (IsBulk direction_in) alt.endpoints × Some (IsBulk direction_out) alt.endpoints)

-- The setting, of the interface of number `m`, makes `n` worth probing.
abbrev pub Offers : ℕ → ℕ → Setting → Type 0
Offers n m alt = (n ≡ m) × IsVendorBulk alt

-- The device has an interface of that number with such a setting.
abbrev pub Qualifies : DeviceDesc → ℕ → Type 0
Qualifies desc n =
    Some (λ cfg. Some (λ intf. Some (Offers n intf.number) intf.alt_settings) cfg.interfaces)
      desc.configs

is_bulk_iff : (t : TransferType) → (is_bulk t ≡ true) ↔ (t ≡ bulk)
is_bulk_iff control = (λ h. absurd (cc h), λ h. cc h)
is_bulk_iff isochronous = (λ h. absurd (cc h), λ h. cc h)
is_bulk_iff bulk = (λ h. refl, λ h. refl)
is_bulk_iff interrupt = (λ h. absurd (cc h), λ h. cc h)

is_in_iff : (d : Direction) → (is_in d ≡ true) ↔ (d ≡ direction_in)
is_in_iff direction_in = (λ h. refl, λ h. refl)
is_in_iff direction_out = (λ h. absurd (cc h), λ h. cc h)

is_out_iff : (d : Direction) → (is_out d ≡ true) ↔ (d ≡ direction_out)
is_out_iff direction_in = (λ h. absurd (cc h), λ h. cc h)
is_out_iff direction_out = (λ h. refl, λ h. refl)

has_bulk_iff :
    (wanted : Direction → Bool) (d : Direction)
    → ((e : Direction) → (wanted e ≡ true) ↔ (e ≡ d))
    → (eps : List Endpoint) → (has_bulk wanted eps ≡ true) ↔ Some (IsBulk d) eps
unfolding has_bulk
has_bulk_iff wanted d h [] = (λ h. absurd (cc h), λ h. absurd h)
has_bulk_iff wanted d h (ep ∷ eps) =
    through (or_iff (is_bulk ep.transfer_type && wanted ep.direction) (has_bulk wanted eps)) (
      either
        (through (and_iff (is_bulk ep.transfer_type) (wanted ep.direction))
          (both (is_bulk_iff ep.transfer_type) (h ep.direction)))
        (has_bulk_iff wanted d h eps))

is_vendor_bulk_iff : (alt : Setting) → (is_vendor_bulk alt ≡ true) ↔ IsVendorBulk alt
unfolding is_vendor_bulk
is_vendor_bulk_iff alt =
    through
      (and_iff (alt.class == 0xFF) (has_bulk is_in alt.endpoints && has_bulk is_out alt.endpoints))
      (both (==_iff alt.class 0xFF) (
        through (and_iff (has_bulk is_in alt.endpoints) (has_bulk is_out alt.endpoints)) (
          both (has_bulk_iff is_in direction_in is_in_iff alt.endpoints)
            (has_bulk_iff is_out direction_out is_out_iff alt.endpoints))))

seen_iff : (n : ℕ) (nums : List ℕ) → (seen n nums ≡ true) ↔ In n nums
unfolding seen
seen_iff n [] = (λ h. absurd (cc h), λ h. absurd h)
seen_iff n (m ∷ nums) =
    through (or_iff (n == m) (seen n nums)) (either (==_iff n m) (seen_iff n nums))

In-snoc : (a n : ℕ) (nums : List ℕ) → In a (nums ++ n ∷ []) ↔ (In a nums ⊎ (a ≡ n))
In-snoc a n [] = (
  λ h. elim h [ inl same ↦ inr same | inr none_here ↦ absurd none_here ],
  λ h. elim h [ inl none_here ↦ absurd none_here | inr same ↦ inl same ],
)
In-snoc a n (m ∷ nums) = (
  λ h. elim h [
    | inl same ↦ inl (inl same)
    | inr later ↦ elim ((In-snoc a n nums).0 later) [
      | inl found ↦ inl (inr found)
      | inr last ↦ inr last
    ]
  ],
  λ h. elim h [
    | inl (inl same) ↦ inl same
    | inl (inr later) ↦ inr ((In-snoc a n nums).1 (inl later))
    | inr last ↦ inr ((In-snoc a n nums).1 (inr last))
  ],
)

-- What a setting adds: the number, if it has the endpoints.
add_iff :
    (a n : ℕ) (nums : List ℕ) (fits known : Bool)
    → (known ≡ true) ↔ In n nums
    → In a (if fits && not known then nums ++ n ∷ [] else nums)
      ↔ (In a nums ⊎ ((a ≡ n) × (fits ≡ true)))
add_iff a n nums true true h =
    (inl, λ e. elim e [ inl found ↦ found | inr p ↦ subst (λ m. In m nums) (sym p.0) (h.0 refl) ])
add_iff a n nums true false h = (
  λ e. elim ((In-snoc a n nums).0 e) [ inl found ↦ inl found | inr same ↦ inr (same, refl) ],
  λ e. (In-snoc a n nums).1 (elim e [ inl found ↦ inl found | inr p ↦ inr p.0 ]),
)
add_iff a n nums false known h = (inl, λ e. elim e [ inl found ↦ found | inr p ↦ absurd (cc p.1) ])

In-scan_settings :
    (a n : ℕ) (nums : List ℕ) (alts : List Setting)
    → In a (scan_settings n nums alts) ↔ (In a nums ⊎ Some (Offers a n) alts)
unfolding scan_settings
In-scan_settings a n nums [] = nothing_more
In-scan_settings a n nums (alt ∷ alts) =
    one_more
      (In-scan_settings a n
        (if is_vendor_bulk alt && not (seen n nums) then nums ++ n ∷ [] else nums) alts)
      (through (add_iff a n nums (is_vendor_bulk alt) (seen n nums) (seen_iff n nums))
        (either same_iff (both same_iff (is_vendor_bulk_iff alt))))

In-scan_interfaces :
    (a : ℕ) (nums : List ℕ) (intfs : List InterfaceDesc)
    → In a (scan_interfaces nums intfs)
      ↔ (In a nums ⊎ Some (λ intf. Some (Offers a intf.number) intf.alt_settings) intfs)
unfolding scan_interfaces
In-scan_interfaces a nums [] = nothing_more
In-scan_interfaces a nums (intf ∷ intfs) =
    one_more (In-scan_interfaces a (scan_settings intf.number nums intf.alt_settings) intfs)
      (In-scan_settings a intf.number nums intf.alt_settings)

In-scan_configs :
    (a : ℕ) (nums : List ℕ) (cfgs : List ConfigDesc)
    → In a (scan_configs nums cfgs) ↔ (
        In a nums
        ⊎ Some
            (λ cfg. Some (λ intf. Some (Offers a intf.number) intf.alt_settings) cfg.interfaces)
            cfgs)
unfolding scan_configs
In-scan_configs a nums [] = nothing_more
In-scan_configs a nums (cfg ∷ cfgs) =
    one_more (In-scan_configs a (scan_interfaces nums cfg.interfaces) cfgs)
      (In-scan_interfaces a nums cfg.interfaces)

apart : (x y : ℕ) → x ≢ y → (ltb x y ≡ true) ⊎ (ltb y x ≡ true)
apart x y h = elim (Bool-cases (ltb x y)) [
  | inl below ↦ inl below
  | inr not_below ↦ inr (ground (arith, not_below, h))
]

TellsApart-snoc :
    (n : ℕ) (nums : List ℕ) → ¬ In n nums → TellsApart ltb nums → TellsApart ltb (nums ++ n ∷ [])
TellsApart-snoc n [] new h = (tt, tt)
TellsApart-snoc n (m ∷ nums) new h = (
  All-append (λ y. (ltb m y ≡ true) ⊎ (ltb y m ≡ true)) nums (n ∷ []) h.0
      (apart m n (λ same. new (inl (sym same))), tt),
  TellsApart-snoc n nums (λ later. new (inr later)) h.1,
)

add-TellsApart :
    (n : ℕ) (nums : List ℕ) (fits known : Bool)
    → (known ≡ true) ↔ In n nums
    → TellsApart ltb nums
    → TellsApart ltb (if fits && not known then nums ++ n ∷ [] else nums)
add-TellsApart n nums true true h told = told
add-TellsApart n nums true false h told =
    TellsApart-snoc n nums (λ found. absurd (cc (h.1 found))) told
add-TellsApart n nums false known h told = told

settings-TellsApart :
    (n : ℕ) (nums : List ℕ) (alts : List Setting)
    → TellsApart ltb nums
    → TellsApart ltb (scan_settings n nums alts)
unfolding scan_settings
settings-TellsApart n nums [] told = told
settings-TellsApart n nums (alt ∷ alts) told =
    settings-TellsApart n (if is_vendor_bulk alt && not (seen n nums) then nums ++ n ∷ [] else nums)
      alts (add-TellsApart n nums (is_vendor_bulk alt) (seen n nums) (seen_iff n nums) told)

interfaces-TellsApart :
    (nums : List ℕ) (intfs : List InterfaceDesc)
    → TellsApart ltb nums
    → TellsApart ltb (scan_interfaces nums intfs)
unfolding scan_interfaces
interfaces-TellsApart nums [] told = told
interfaces-TellsApart nums (intf ∷ intfs) told =
    interfaces-TellsApart (scan_settings intf.number nums intf.alt_settings) intfs
      (settings-TellsApart intf.number nums intf.alt_settings told)

configs-TellsApart :
    (nums : List ℕ) (cfgs : List ConfigDesc)
    → TellsApart ltb nums
    → TellsApart ltb (scan_configs nums cfgs)
unfolding scan_configs
configs-TellsApart nums [] told = told
configs-TellsApart nums (cfg ∷ cfgs) told =
    configs-TellsApart (scan_interfaces nums cfg.interfaces) cfgs
      (interfaces-TellsApart nums cfg.interfaces told)

ltb-transitive : (x y z : ℕ) → ltb x y ≡ true → ltb y z ≡ true → ltb x z ≡ true
ltb-transitive x y z h k = ground (arith, h, k)

-- Without a forced interface, the interfaces to probe are exactly those of the device's configurations
-- that have a setting of class 0xFF with a bulk endpoint in and one out, each once and in the order
-- of their numbers.
pub candidate_interfaces_iff :
    (desc : DeviceDesc) (k : ℕ)
    → IsAscending ltb (candidate_interfaces desc (negsuc k))
      × ((n : ℕ) → In n (candidate_interfaces desc (negsuc k)) ↔ Qualifies desc n)
unfolding candidate_interfaces
candidate_interfaces_iff desc k = (
  sort-IsAscending ltb ltb-transitive (scan_configs [] desc.configs)
      (configs-TellsApart [] desc.configs tt),
  λ n.
      through (In-sort ltb n (scan_configs [] desc.configs))
        (through (In-scan_configs n [] desc.configs) empty_before),
)
