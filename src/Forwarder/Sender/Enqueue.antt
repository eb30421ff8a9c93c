-- ===== src/Forwarder/Sender/Enqueue.antt =====
-- The goroutines that fill the queues of internal/forwarder/forwarder.go.
use at_message_forward.Prelude.{
  true, false, some, List, [], ◌∷◌, ◌++◌, ltb, length, length-append, ◌≡◌, arith, append_assoc, ◌∙◌,
  Bool-cases, ltb→lt, inl, inr,
}
use mathlib.Core.Option.{some-injective}
use mathlib.Core.Path.{subst}
use at_message_forward.Forwarder.Sender.{
  SendItem, Sender, enqueue_important, give_up, push_raw, notify_important_buffer,
  notify_raw_buffer,
}
use at_message_forward.Forwarder.Sender.Order.{
  is_raw, important_of, raw_of, in_flight, IsValid, important_of-append, raw_of-append,
}

-- A new item at the end of a queue goes to the end of what entered it.
pub append_item :
    (entered sent flying queue : List SendItem) (item : SendItem)
    → entered ≡ sent ++ (flying ++ queue)
    → entered ++ item ∷ [] ≡ sent ++ (flying ++ (queue ++ item ∷ []))
append_item entered sent flying queue item h = rw h (simp append_assoc)

pub enqueue_important-IsValid :
    (item : SendItem) (s t : Sender)
    → is_raw item.kind ≡ false
    → IsValid s
    → enqueue_important item s ≡ some t
    → IsValid t
unfolding enqueue_important
enqueue_important-IsValid item s t k v h =
    elim (Bool-cases (ltb (length s.important) notify_important_buffer)) [
      | inl room ↦ subst IsValid (some-injective _ _ (rw room at h)) (record {
        important_bound =
            rw (length-append s.important (item ∷ [])) (omega (arith, ltb→lt _ _ room));
        raw_bound = v.raw_bound;
        important_kinds = raw_of-append s.important (item ∷ []) ∙ rw (v.important_kinds, k);
        raw_kinds = v.raw_kinds;
        important_order =
            append_item s.entered_important (important_of s.notified)
              (important_of (in_flight s.worker)) s.important item v.important_order;
        raw_order = v.raw_order;
        given_up_done = v.given_up_done;
      })
      | inr full ↦ absurd (cc (rw full at h))
    ]

pub push_raw-IsValid :
    (item : SendItem) (s : Sender) → is_raw item.kind ≡ true → IsValid s → IsValid (push_raw item s)
unfolding push_raw
push_raw-IsValid item s k v = elim (Bool-cases (ltb (length s.raw) notify_raw_buffer)) [
  | inl room ↦ rw room (record {
    important_bound = v.important_bound;
    raw_bound = rw (length-append s.raw (item ∷ [])) (omega (arith, ltb→lt _ _ room));
    important_kinds = v.important_kinds;
    raw_kinds = important_of-append s.raw (item ∷ []) ∙ rw (v.raw_kinds, k);
    important_order = v.important_order;
    raw_order =
        append_item s.entered_raw (raw_of s.notified) (raw_of (in_flight s.worker)) s.raw item
          v.raw_order;
    given_up_done = v.given_up_done;
  })
  | inr full ↦ rw full v
]

pub give_up-IsValid :
    (item : SendItem) (s t : Sender) → IsValid s → give_up item s ≡ some t → IsValid t
unfolding give_up
give_up-IsValid item s t v h = elim (Bool-cases s.done) [
  | inl done ↦ subst IsValid (some-injective _ _ (rw done at h)) (record {
    important_bound = v.important_bound;
    raw_bound = v.raw_bound;
    important_kinds = v.important_kinds;
    raw_kinds = v.raw_kinds;
    important_order = v.important_order;
    raw_order = v.raw_order;
    given_up_done = λ live. absurd (cc live);
  })
  | inr live ↦ absurd (cc (rw live at h))
]
