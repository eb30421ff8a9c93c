-- ===== src/Forwarder/Sender/Invariant.antt =====
-- What holds of the `sender` of internal/forwarder/forwarder.go in every state that it can reach.
use at_message_forward.Prelude.{true, some, List, [], ◌∷◌, ◌≡◌, refl, arith, Option-cases, inl, inr}
use mathlib.Core.Option.{some-injective}
use mathlib.Core.Path.{subst}
use at_message_forward.Forwarder.Sender.{
  Sender, new_sender, Step, step, run, enqueue_sms, enqueue_watchdog, enqueue_raw, give_up_sms,
  give_up_watchdog, receive_important, receive_raw, finish_send, cancel, return_worker,
}
use at_message_forward.Forwarder.Sender.Enqueue.{
  enqueue_important-IsValid, push_raw-IsValid, give_up-IsValid,
}
use at_message_forward.Forwarder.Sender.Receive.{
  take_important-IsValid, take_raw-IsValid, finish-IsValid, return-IsValid,
}
use at_message_forward.Forwarder.Sender.Order.{IsValid}

cancel-IsValid : (s : Sender) → IsValid s → IsValid (record s { done = true })
cancel-IsValid s v = record {
  important_bound = v.important_bound;
  raw_bound = v.raw_bound;
  important_kinds = v.important_kinds;
  raw_kinds = v.raw_kinds;
  important_order = v.important_order;
  raw_order = v.raw_order;
  given_up_done = λ live. absurd (cc live);
}

step-IsValid : (s t : Sender) (e : Step) → IsValid s → step s e ≡ some t → IsValid t
unfolding step
step-IsValid s t (enqueue_sms event) v h = enqueue_important-IsValid _ s t refl v h
step-IsValid s t (enqueue_watchdog reason) v h = enqueue_important-IsValid _ s t refl v h
step-IsValid s t (enqueue_raw line) v h =
    subst IsValid (some-injective _ _ h) (push_raw-IsValid _ s refl v)
step-IsValid s t (give_up_sms event) v h = give_up-IsValid _ s t v h
step-IsValid s t (give_up_watchdog reason) v h = give_up-IsValid _ s t v h
step-IsValid s t receive_important v h = take_important-IsValid _ _ s t refl refl v h
step-IsValid s t receive_raw v h = take_raw-IsValid _ _ s t refl refl v h
step-IsValid s t finish_send v h = finish-IsValid _ s t refl v h
step-IsValid s t cancel v h = subst IsValid (some-injective _ _ h) (cancel-IsValid s v)
step-IsValid s t return_worker v h = return-IsValid _ _ s t refl v h

run_from-IsValid : (es : List Step) (s t : Sender) → IsValid s → run s es ≡ some t → IsValid t
unfolding run
run_from-IsValid [] s t v h = subst IsValid (some-injective _ _ h) v
run_from-IsValid (e ∷ es) s t v h = elim (Option-cases (step s e)) [
  | inl blocked ↦ absurd (cc (rw blocked at h))
  | inr (u, taken) ↦ run_from-IsValid es u t (step-IsValid s u e v taken) (rw taken at h)
]

new_sender-IsValid : IsValid new_sender
unfolding new_sender
new_sender-IsValid = record {
  important_bound = omega arith;
  raw_bound = omega arith;
  important_kinds = refl;
  raw_kinds = refl;
  important_order = refl;
  raw_order = refl;
  given_up_done = λ live. refl;
}

-- In every order of the goroutines' steps: the priority queue never holds more than 64 items and the
-- raw queue never more than 16; the SMS and the alerts that entered the priority queue are, in that
-- order, those that were notified, the one being sent and those that wait, so none is lost,
-- repeated or overtaken, and so with the raw lines that entered their queue; and no SMS or alert is
-- given up before the context is done.
pub run-IsValid : (es : List Step) (t : Sender) → run new_sender es ≡ some t → IsValid t
run-IsValid es t = run_from-IsValid es new_sender t new_sender-IsValid
