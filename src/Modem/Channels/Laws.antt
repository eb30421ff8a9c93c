-- ===== src/Modem/Channels/Laws.antt =====
-- What the handlers of internal/modem/modem.go put into the channels.
use at_message_forward.Prelude.{
  ℕ, zero, suc, ◌-◌, true, false, List, [], ◌∷◌, ◌++◌, ltb, length, length-append, take, ◌≡◌, refl,
  ap, sym, ◌∙◌, arith, Result, ok, err, append_assoc, append-nil, Bool-cases, inl, inr, ltb→lt,
}
use at_message_forward.Text.{Text}
use at_message_forward.Sms.Hex.{Error}
use at_message_forward.Sms.Pdu.{Event}
use at_message_forward.Sms.Indication.{parse_cmt_indication}
use at_message_forward.Modem.Channels.{
  raw_lines_cap, events_cap, Channels, emit_raw_lines, emit_sms_event, emit_parsed, on_cmt,
}

-- What fits into a queue, in front of what does not.
abbrev pub fitting {ℓ} : {A : Type ℓ} → ℕ → List A → List A → List A
fitting cap queue xs = queue ++ take (cap - length queue) xs

no_room : (queue : List Text) → ltb (length queue) raw_lines_cap ≡ false → 32 - length queue ≡ 0
no_room queue full = ground arith

one_less :
    (queue : List Text) (line : Text)
    → ltb (length queue) raw_lines_cap ≡ true
    → 32 - length queue ≡ suc (32 - length (queue ++ line ∷ []))
one_less queue line room =
    omega (arith, length-append queue (line ∷ []), ltb→lt (length queue) raw_lines_cap room)

take-nil {ℓ} : {A : Type ℓ} (n : ℕ) → take {A = A} n [] ≡ []
take-nil zero = refl
take-nil (suc n) = refl

fitting_full :
    (queue lines : List Text)
    → ltb (length queue) raw_lines_cap ≡ false
    → fitting raw_lines_cap queue lines ≡ queue
fitting_full queue lines full = rw (no_room queue full) (append-nil queue)

fitting_room :
    (queue lines : List Text) (line : Text)
    → ltb (length queue) raw_lines_cap ≡ true
    → fitting raw_lines_cap queue (line ∷ lines) ≡ fitting raw_lines_cap (queue ++ line ∷ []) lines
fitting_room queue lines line room =
    rw (one_less queue line room) (sym (append_assoc queue (line ∷ []) _))

emit_raw_lines-fitting :
    (lines queue : List Text) → emit_raw_lines queue lines ≡ fitting raw_lines_cap queue lines
unfolding emit_raw_lines
emit_raw_lines-fitting [] queue =
    rw (take-nil (raw_lines_cap - length queue)) (sym (append-nil queue))
emit_raw_lines-fitting (line ∷ lines) queue = elim (Bool-cases (ltb (length queue) raw_lines_cap)) [
  | inl room ↦
      rw room (
        emit_raw_lines-fitting lines (queue ++ line ∷ [])
        ∙ sym (fitting_room queue lines line room))
  | inr full ↦ rw full (
      emit_raw_lines-fitting lines queue
      ∙ fitting_full queue lines full
      ∙ sym (fitting_full queue (line ∷ lines) full))
]

emit_sms_event-fitting :
    (e : Event) (queue : List Event) → emit_sms_event queue e ≡ fitting events_cap queue (e ∷ [])
unfolding emit_sms_event
emit_sms_event-fitting e queue = elim (Bool-cases (ltb (length queue) events_cap)) [
  | inl room ↦
      let one : 8 - length queue ≡ suc (7 - length queue) =
        omega (arith, ltb→lt (length queue) events_cap room) in
      rw (room, one) (ap (λ t. queue ++ e ∷ t) (sym (take-nil (7 - length queue))))
  | inr full ↦
      let none_left : 8 - length queue ≡ 0 = ground arith in
      rw (full, none_left) (sym (append-nil queue))
]

emit_parsed-raw_lines :
    (r : Result Error Event) (c : Channels) → (emit_parsed r c).raw_lines ≡ c.raw_lines
emit_parsed-raw_lines (ok event) c = refl
emit_parsed-raw_lines (err e) c = refl

-- A handler never waits. For `+CMT:` the lines of the indication that still fit among the 32 raw
-- lines are appended, from the first on, whether or not the message is understood; a message that is
-- understood is appended to the events if fewer than 8 wait, and else dropped; one that is not
-- leaves the events alone.
pub on_cmt-fitting :
    (now : ℕ) (lines : List Text) (c : Channels)
    → ((on_cmt now lines c).raw_lines ≡ fitting raw_lines_cap c.raw_lines lines)
      × ((e : Event)
          → parse_cmt_indication now lines ≡ ok e
          → (on_cmt now lines c).events ≡ fitting events_cap c.events (e ∷ []))
      × ((x : Error)
          → parse_cmt_indication now lines ≡ err x
          → (on_cmt now lines c).events ≡ c.events)
unfolding on_cmt
on_cmt-fitting now lines c = (
  emit_parsed-raw_lines (parse_cmt_indication now lines) _
      ∙ emit_raw_lines-fitting lines c.raw_lines,
  λ e h. rw h (emit_sms_event-fitting e c.events),
  λ x h. rw h,
)
