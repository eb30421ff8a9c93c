-- ===== src/Forwarder/Sender/Order.antt =====
-- What holds of the `sender` of internal/forwarder/forwarder.go between two steps.
use at_message_forward.Prelude.{
  ◌≤◌, Bool, true, false, List, [], ◌∷◌, ◌++◌, if◌then◌else◌, length, ◌≡◌, refl, ap, Bool-cases,
  inl, inr,
}
use at_message_forward.Forwarder.Sender.{
  SendKind, send_sms, send_raw, send_watchdog, SendItem, Worker, idle, sending, returned, Sender,
  notify_important_buffer, notify_raw_buffer,
}

-- The items of the priority queue, and those of the other.
abbrev pub is_raw : SendKind → Bool
is_raw send_sms = false
is_raw send_raw = true
is_raw send_watchdog = false

abbrev pub important_of : List SendItem → List SendItem
important_of [] = []
important_of (i ∷ items) = if is_raw i.kind then important_of items else i ∷ important_of items

abbrev pub raw_of : List SendItem → List SendItem
raw_of [] = []
raw_of (i ∷ items) = if is_raw i.kind then i ∷ raw_of items else raw_of items

-- What the worker is sending.
abbrev pub in_flight : Worker → List SendItem
in_flight idle = []
in_flight (sending i) = i ∷ []
in_flight returned = []

pub record IsValid (s : Sender) : Type 0 where
  pub important_bound : length s.important ≤ notify_important_buffer
  pub raw_bound : length s.raw ≤ notify_raw_buffer
  pub important_kinds : raw_of s.important ≡ []
  pub raw_kinds : important_of s.raw ≡ []
  pub important_order :
      s.entered_important
      ≡ important_of s.notified ++ (important_of (in_flight s.worker) ++ s.important)
  pub raw_order : s.entered_raw ≡ raw_of s.notified ++ (raw_of (in_flight s.worker) ++ s.raw)
  pub given_up_done : s.done ≡ false → s.given_up ≡ []

pub important_of-append :
    (xs ys : List SendItem) → important_of (xs ++ ys) ≡ important_of xs ++ important_of ys
important_of-append [] ys = refl
important_of-append (x ∷ xs) ys = elim (Bool-cases (is_raw x.kind)) [
  | inl raw ↦ rw raw (important_of-append xs ys)
  | inr other ↦ rw other (ap (◌∷◌ x) (important_of-append xs ys))
]

pub raw_of-append : (xs ys : List SendItem) → raw_of (xs ++ ys) ≡ raw_of xs ++ raw_of ys
raw_of-append [] ys = refl
raw_of-append (x ∷ xs) ys = elim (Bool-cases (is_raw x.kind)) [
  | inl raw ↦ rw raw (ap (◌∷◌ x) (raw_of-append xs ys))
  | inr other ↦ rw other (raw_of-append xs ys)
]
