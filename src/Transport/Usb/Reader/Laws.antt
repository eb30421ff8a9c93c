-- ===== src/Transport/Usb/Reader/Laws.antt =====
-- Sequences of `Read` of internal/transport/usb/usb_cgo.go, and the bytes that pass through them.
use at_message_forward.Prelude.{
  ℕ, zero, suc, Bool, true, false, Option, none, some, List, [], ◌∷◌, ◌++◌, length, take, drop, ◌≡◌,
  refl, sym, ap, ◌∙◌, append_assoc, drop-add, take-append, Bool-cases, inl, inr,
}
use at_message_forward.Text.{Text, is_empty}
use at_message_forward.Transport.Usb.Reader.{
  Reader, pending, Turn, cancelled, transfer, Step, fill, hand_on, nothing_received, read_loop,
  read, bytes_of,
}

abbrev pub received : Turn → List ℕ
received cancelled = []
received (transfer bytes error gone) = bytes

-- All that the turns receive, in their order.
abbrev pub all_received : List Turn → List ℕ
all_received [] = []
all_received (t ∷ turns) = received t ++ all_received turns

-- What a sequence of reads, each into a buffer of its size, delivers, and where it ends.
abbrev pub read_all : List ℕ → Reader → List Turn → List ℕ × (Reader × List Turn)
read_all [] r turns = ([], (r, turns))
read_all (size ∷ sizes) r turns =
    let one : Step = read size r turns in
    let rest : List ℕ × (Reader × List Turn) = read_all sizes one.reader one.left in
    (bytes_of one.outcome ++ rest.0, rest.1)

take-drop {ℓ} : {A : Type ℓ} (n : ℕ) (xs : List A) → take n xs ++ drop n xs ≡ xs
take-drop zero xs = refl
take-drop (suc n) [] = refl
take-drop (suc n) (x ∷ xs) = ap (◌∷◌ x) (take-drop n xs)

drop_taken {ℓ} : {A : Type ℓ} (n : ℕ) (xs : List A) → drop (length (take n xs)) xs ≡ drop n xs
drop_taken zero xs = refl
drop_taken (suc n) [] = refl
drop_taken (suc n) (x ∷ xs) = drop_taken n xs

-- What is handed on and what is left pending is what was pending.
hand_on_lem :
    (size : ℕ) (r : Reader) (turns : List Turn)
    → bytes_of (hand_on size r turns).outcome ++ pending (hand_on size r turns).reader ≡ pending r
hand_on_lem size r turns =
    let behind : List ℕ = take r.size r.stage in
    ap (λ xs. take size (pending r) ++ xs)
      (drop-add r.from (length (take size (pending r))) behind ∙ drop_taken size (pending r))
    ∙ take-drop size (pending r)

pending-fill : (bytes : List ℕ) (r : Reader) → pending (fill bytes r) ≡ bytes
pending-fill bytes r = take-append bytes (drop (length bytes) r.stage)

-- What a step delivers, what it leaves pending and what it leaves to be received.
abbrev pub flow : Step → List ℕ
flow s = bytes_of s.outcome ++ (pending s.reader ++ all_received s.left)

flow-hand_on :
    (size : ℕ) (r : Reader) (turns : List Turn)
    → flow (hand_on size r turns) ≡ pending r ++ all_received turns
flow-hand_on size r turns =
    let now : Step = hand_on size r turns in
    sym (append_assoc (bytes_of now.outcome) (pending now.reader) (all_received turns))
    ∙ ap (λ xs. xs ++ all_received turns) (hand_on_lem size r turns)

flow-nothing_received :
    (error : Option Text) (gone : Bool) (r : Reader) (turns : List Turn) (next : Step)
    → flow next ≡ pending r ++ all_received turns
    → flow (nothing_received error gone r turns next) ≡ pending r ++ all_received turns
flow-nothing_received none gone r turns next h = h
flow-nothing_received (some e) true r turns next h = refl
flow-nothing_received (some e) false r turns next h = refl

flow-read_loop :
    (size : ℕ) (r : Reader) (turns : List Turn)
    → pending r ≡ []
    → flow (read_loop size r turns) ≡ pending r ++ all_received turns
unfolding read_loop
flow-read_loop size r [] none_left = refl
flow-read_loop size r (cancelled ∷ turns) none_left = refl
flow-read_loop size r (transfer [] error gone ∷ turns) none_left =
    flow-nothing_received error gone r turns (read_loop size r turns)
      (flow-read_loop size r turns none_left)
flow-read_loop size r (transfer (b ∷ bytes) error gone ∷ turns) none_left =
    flow-hand_on size (fill (b ∷ bytes) r) turns
    ∙ ap (λ xs. xs ++ all_received turns) (pending-fill (b ∷ bytes) r)
    ∙ sym (ap (λ xs. xs ++ (b ∷ bytes ++ all_received turns)) none_left)

empty_nil : (xs : List ℕ) → is_empty xs ≡ true → xs ≡ []
empty_nil [] h = refl
empty_nil (x ∷ xs) h = absurd (cc h)

flow-read :
    (size : ℕ) (r : Reader) (turns : List Turn)
    → flow (read size r turns) ≡ pending r ++ all_received turns
unfolding read
flow-read size r turns = elim (Bool-cases (is_empty (pending r))) [
  | inl nothing ↦ rw nothing (flow-read_loop size r turns (empty_nil (pending r) nothing))
  | inr more ↦ rw more (flow-hand_on size r turns)
]

-- However many reads of whatever sizes are made, and whichever of them fail: what they deliver, what
-- is pending behind them and what is still to be received are together what was pending before and
-- all that libusb receives, each byte once and in the order received.
pub read_all-conserves :
    (sizes : List ℕ) (r : Reader) (turns : List Turn)
    → (read_all sizes r turns).0
        ++ (pending (read_all sizes r turns).1.0 ++ all_received (read_all sizes r turns).1.1)
      ≡ pending r ++ all_received turns
read_all-conserves [] r turns = refl
read_all-conserves (size ∷ sizes) r turns =
    let one : Step = read size r turns in
    let rest : List ℕ × (Reader × List Turn) = read_all sizes one.reader one.left in
    append_assoc (bytes_of one.outcome) rest.0 (pending rest.1.0 ++ all_received rest.1.1)
    ∙ ap (λ xs. bytes_of one.outcome ++ xs) (read_all-conserves sizes one.reader one.left)
    ∙ flow-read size r turns
