-- ===== src/Forwarder/Sender/Receive.antt =====
-- The worker of the `sender` of internal/forwarder/forwarder.go.
use at_message_forward.Prelude.{
  Bool, true, false, some, List, [], ◌∷◌, ◌≡◌, arith, append_assoc, sym, ◌∙◌, Bool-cases, inl, inr,
}
use mathlib.Core.Option.{some-injective}
use mathlib.Core.Path.{subst}
use at_message_forward.Forwarder.Sender.{
  SendItem, Worker, idle, sending, returned, Sender, receive_from_important, receive_from_raw,
  finish_with, return_when,
}
use at_message_forward.Forwarder.Sender.Order.{
  is_raw, important_of, raw_of, IsValid, important_of-append, raw_of-append,
}

pub head-important :
    (i : SendItem) (q : List SendItem) → raw_of (i ∷ q) ≡ [] → is_raw i.kind ≡ false
head-important i q h = elim (Bool-cases (is_raw i.kind)) [
  | inl raw ↦ absurd (cc (rw raw at h))
  | inr other ↦ other
]

pub head-raw : (i : SendItem) (q : List SendItem) → important_of (i ∷ q) ≡ [] → is_raw i.kind ≡ true
head-raw i q h = elim (Bool-cases (is_raw i.kind)) [
  | inl raw ↦ raw
  | inr other ↦ absurd (cc (rw other at h))
]

-- An idle worker takes the first item of the priority queue.
pub take_important-IsValid :
    (w : Worker) (q : List SendItem) (s t : Sender)
    → s.worker ≡ w
    → s.important ≡ q
    → IsValid s
    → receive_from_important w q s ≡ some t
    → IsValid t
take_important-IsValid idle [] s t ew eq v h = absurd (cc h)
take_important-IsValid (sending i) q s t ew eq v h = absurd (cc h)
take_important-IsValid returned q s t ew eq v h = absurd (cc h)
take_important-IsValid idle (i ∷ q) s t ew eq v h =
    let k = head-important i q (rw eq at v.important_kinds) in
    subst IsValid (some-injective _ _ h) (record {
      important_bound = omega (arith, rw eq at v.important_bound);
      raw_bound = v.raw_bound;
      important_kinds = rw k at (rw eq at v.important_kinds);
      raw_kinds = v.raw_kinds;
      important_order = rw k (rw (ew, eq) at v.important_order);
      raw_order = rw k (rw ew at v.raw_order);
      given_up_done = v.given_up_done;
    })

pub take_raw-IsValid :
    (w : Worker) (q : List SendItem) (s t : Sender)
    → s.worker ≡ w
    → s.raw ≡ q
    → IsValid s
    → receive_from_raw w q s ≡ some t
    → IsValid t
take_raw-IsValid idle [] s t ew eq v h = absurd (cc h)
take_raw-IsValid (sending i) q s t ew eq v h = absurd (cc h)
take_raw-IsValid returned q s t ew eq v h = absurd (cc h)
take_raw-IsValid idle (i ∷ q) s t ew eq v h =
    let k = head-raw i q (rw eq at v.raw_kinds) in
    subst IsValid (some-injective _ _ h) (record {
      important_bound = v.important_bound;
      raw_bound = omega (arith, rw eq at v.raw_bound);
      important_kinds = v.important_kinds;
      raw_kinds = rw k at (rw eq at v.raw_kinds);
      important_order = rw k (rw ew at v.important_order);
      raw_order = rw k (rw (ew, eq) at v.raw_order);
      given_up_done = v.given_up_done;
    })

pub finish-IsValid :
    (w : Worker) (s t : Sender) → s.worker ≡ w → IsValid s → finish_with w s ≡ some t → IsValid t
finish-IsValid idle s t ew v h = absurd (cc h)
finish-IsValid returned s t ew v h = absurd (cc h)
finish-IsValid (sending i) s t ew v h = subst IsValid (some-injective _ _ h) (record {
  important_bound = v.important_bound;
  raw_bound = v.raw_bound;
  important_kinds = v.important_kinds;
  raw_kinds = v.raw_kinds;
  important_order =
      (rw ew at v.important_order)
      ∙ rw (important_of-append s.notified (i ∷ []))
          (sym (append_assoc (important_of s.notified) (important_of (i ∷ [])) s.important));
  raw_order =
      (rw ew at v.raw_order)
      ∙ rw (raw_of-append s.notified (i ∷ []))
          (sym (append_assoc (raw_of s.notified) (raw_of (i ∷ [])) s.raw));
  given_up_done = v.given_up_done;
})

pub return-IsValid :
    (w : Worker) (d : Bool) (s t : Sender)
    → s.worker ≡ w
    → IsValid s
    → return_when w d s ≡ some t
    → IsValid t
return-IsValid idle false s t ew v h = absurd (cc h)
return-IsValid (sending i) d s t ew v h = absurd (cc h)
return-IsValid returned d s t ew v h = absurd (cc h)
return-IsValid idle true s t ew v h = subst IsValid (some-injective _ _ h) (record {
  important_bound = v.important_bound;
  raw_bound = v.raw_bound;
  important_kinds = v.important_kinds;
  raw_kinds = v.raw_kinds;
  important_order = rw ew at v.important_order;
  raw_order = rw ew at v.raw_order;
  given_up_done = v.given_up_done;
})
