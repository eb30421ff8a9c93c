-- ===== src/Forwarder/Sender.antt =====
-- The `sender` of internal/forwarder/forwarder.go: two bounded queues and one worker, as a transition
-- function over what its goroutines may do next. `none` means that the step cannot be taken: a send
-- on a full channel, or a receive from an empty one, waits. A choice between ready cases is the
-- choice of the next event.
pub mod Order
pub mod Enqueue
pub mod Receive
pub mod Invariant
use at_message_forward.Prelude.{
  ℕ, Bool, true, false, Option, none, some, and_then, List, [], ◌∷◌, ◌++◌, ltb, if◌then◌else◌,
  length,
}
use at_message_forward.Text.{Text}
use at_message_forward.Notifier.{Message, sms_message, raw_message, watchdog_message}
use at_message_forward.Sms.Pdu.{Event}

pub data SendKind : Type 0 where
  send_sms send_raw send_watchdog : SendKind

pub record SendItem : Type 0 where
  pub kind : SendKind
  pub msg : Message

abbrev pub notify_important_buffer : ℕ
notify_important_buffer = 64

abbrev pub notify_raw_buffer : ℕ
notify_raw_buffer = 16

-- The worker waits in `select`, is in `send`, or has returned.
pub data Worker : Type 0 where
  idle : Worker
  sending : SendItem → Worker
  returned : Worker

-- The channels and the worker, and the history: what entered each queue, what `Notify` was called
-- with and has returned from, and what a done context made its sender give up.
pub record Sender : Type 0 where
  pub important : List SendItem
  pub raw : List SendItem
  pub worker : Worker
  pub done : Bool
  pub notified : List SendItem
  pub entered_important : List SendItem
  pub entered_raw : List SendItem
  pub given_up : List SendItem

unfoldable pub new_sender : Sender
new_sender = record {
  important = [];
  raw = [];
  worker = idle;
  done = false;
  notified = [];
  entered_important = [];
  entered_raw = [];
  given_up = [];
}

pub data Step : Type 0 where
  enqueue_sms : Event → Step
  enqueue_watchdog : Text → Step
  enqueue_raw : Text → Step
  give_up_sms : Event → Step
  give_up_watchdog : Text → Step
  receive_important receive_raw finish_send cancel return_worker : Step

abbrev pub sms_item : Event → SendItem
sms_item event = record { kind = send_sms; msg = sms_message event }

abbrev pub watchdog_item : Text → SendItem
watchdog_item reason = record { kind = send_watchdog; msg = watchdog_message reason }

abbrev pub raw_item : Text → SendItem
raw_item line = record { kind = send_raw; msg = raw_message line }

-- The case `s.important <- item` of `enqueueImportant`.
unfoldable pub enqueue_important : SendItem → Sender → Option Sender
enqueue_important item s =
    if ltb (length s.important) notify_important_buffer
    then some (record s {
      important = s.important ++ item ∷ [];
      entered_important = s.entered_important ++ item ∷ [];
    })
    else none

-- The case `<-ctx.Done()` of `enqueueImportant`.
unfoldable pub give_up : SendItem → Sender → Option Sender
give_up item s = if s.done then some (record s { given_up = s.given_up ++ item ∷ [] }) else none

-- `EnqueueRaw`: it never waits, and drops the line when the queue is full.
unfoldable pub push_raw : SendItem → Sender → Sender
push_raw item s =
    if ltb (length s.raw) notify_raw_buffer
    then record s { raw = s.raw ++ item ∷ []; entered_raw = s.entered_raw ++ item ∷ [] }
    else s

-- The cases of `select` in `Run`, by the state of the worker and the queue.
abbrev pub receive_from_important : Worker → List SendItem → Sender → Option Sender
receive_from_important idle (item ∷ rest) s =
    some (record s { important = rest; worker = sending item })
receive_from_important idle [] s = none
receive_from_important (sending i) q s = none
receive_from_important returned q s = none

abbrev pub receive_from_raw : Worker → List SendItem → Sender → Option Sender
receive_from_raw idle (item ∷ rest) s = some (record s { raw = rest; worker = sending item })
receive_from_raw idle [] s = none
receive_from_raw (sending i) q s = none
receive_from_raw returned q s = none

-- `send` has returned; an error of `Notify` is logged, and the item is not sent again.
abbrev pub finish_with : Worker → Sender → Option Sender
finish_with idle s = none
finish_with (sending item) s = some (record s { worker = idle; notified = s.notified ++ item ∷ [] })
finish_with returned s = none

-- The case `<-ctx.Done()` of `Run`.
abbrev pub return_when : Worker → Bool → Sender → Option Sender
return_when idle true s = some (record s { worker = returned })
return_when idle false s = none
return_when (sending i) d s = none
return_when returned d s = none

unfoldable pub step : Sender → Step → Option Sender
step s (enqueue_sms event) = enqueue_important (sms_item event) s
step s (enqueue_watchdog reason) = enqueue_important (watchdog_item reason) s
step s (enqueue_raw line) = some (push_raw (raw_item line) s)
step s (give_up_sms event) = give_up (sms_item event) s
step s (give_up_watchdog reason) = give_up (watchdog_item reason) s
step s receive_important = receive_from_important s.worker s.important s
step s receive_raw = receive_from_raw s.worker s.raw s
step s finish_send = finish_with s.worker s
step s cancel = some (record s { done = true })
step s return_worker = return_when s.worker s.done s

-- A sequence of steps, if each can be taken.
unfoldable pub run : Sender → List Step → Option Sender
run s [] = some s
run s (e ∷ es) = and_then (step s e) (λ t. run t es)
