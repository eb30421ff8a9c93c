-- ===== src/Transport/Usb/Handles/Laws.antt =====
-- How traces of handles compose.
use at_message_forward.Prelude.{
  ℕ, true, Option, none, some, List, [], ◌∷◌, ◌++◌, ◌==◌, Result, ok, err, and_then, ◌≡◌, refl, sym,
  ap, ◌∙◌, ==_iff, append_assoc,
}
use at_message_forward.Transport.Usb.{Error}
use at_message_forward.Transport.Usb.Handles.{
  Handle, context, read_context, device, configuration, interface, Event, opens, closes, Traced,
  plain, behind, unless_ok, deferring, same_handle, remove, step, run,
}

and_then_twice :
    {A B C : Type 0} (o : Option A) (f : A → Option B) (g : B → Option C) (both : A → Option C)
    → ((a : A) → both a ≡ and_then (f a) g)
    → and_then o both ≡ and_then (and_then o f) g
and_then_twice none f g both h = refl
and_then_twice (some a) f g both h = h a

pub run-append :
    (events more : List Event) (held : List Handle)
    → run (events ++ more) held ≡ and_then (run events held) (λ left. run more left)
unfolding run
run-append [] more held = refl
run-append (e ∷ events) more held =
    and_then_twice (step e held) (λ left. run events left) (λ left. run more left)
      (λ left. run (events ++ more) left) (run-append events more)

pub run_then :
    (events more : List Event) (held : List Handle) {middle : List Handle}
    {last : Option (List Handle)}
    → run events held ≡ some middle
    → run more middle ≡ last
    → run (events ++ more) held ≡ last
run_then events more held first second =
    run-append events more held ∙ ap (λ o. and_then o (λ left. run more left)) first ∙ second

same_ℕ : (n : ℕ) → (n == n) ≡ true
same_ℕ n = (==_iff n n).1 refl

same_handle_self : (h : Handle) → same_handle h h ≡ true
unfolding same_handle
same_handle_self context = refl
same_handle_self read_context = refl
same_handle_self (device i) = same_ℕ i
same_handle_self (configuration i) = same_ℕ i
same_handle_self (interface i n) = rw (same_ℕ i) (same_ℕ n)

-- The handle that was opened last may be closed.
pub run_close : (h : Handle) (held : List Handle) → run (closes h ∷ []) (h ∷ held) ≡ some held
unfolding run remove
run_close h held = rw (same_handle_self h) refl

pub run_close_then :
    (h : Handle) (more : List Event) (held : List Handle) {last : Option (List Handle)}
    → run more held ≡ last
    → run (closes h ∷ more) (h ∷ held) ≡ last
run_close_then h more held next = run_then (closes h ∷ []) more (h ∷ held) (run_close h held) next

-- What a call that fails or gives a handle of its own leaves open, over what was open before.
abbrev pub left_open : {A : Type 0} → (A → List Handle) → Result Error A → List Handle → List Handle
left_open kept (ok a) held = kept a ++ held
left_open kept (err e) held = held

-- A call that leaves open what it returns on success, and nothing on failure.
abbrev pub IsTidy : {A : Type 0} → (A → List Handle) → Traced (Result Error A) → Type 0
IsTidy kept t = (held : List Handle) → run t.trace held ≡ some (left_open kept t.result held)

-- `kept` with one handle more behind it.
abbrev pub with_handle : {A : Type 0} → Handle → (A → List Handle) → A → List Handle
with_handle h kept a = kept a ++ h ∷ []

behind_result :
    {A : Type 0} (h : Handle) (kept : A → List Handle) (r : Result Error A) (held : List Handle)
    → run (unless_ok h r) (left_open kept r (h ∷ held))
      ≡ some (left_open (with_handle h kept) r held)
unfolding run
behind_result h kept (ok a) held = ap some (sym (append_assoc (kept a) (h ∷ []) held))
behind_result h kept (err e) held = run_close h held

-- The deferred call that closes a handle, behind a tidy call.
pub run-deferring :
    {A : Type 0} (h : Handle) (kept : A → List Handle) (t : Traced (Result Error A))
    → IsTidy kept t
    → (held : List Handle)
    → run (deferring h t).trace (h ∷ held) ≡ some (left_open (with_handle h kept) t.result held)
run-deferring h kept t tidy held =
    run_then t.trace (unless_ok h t.result) (h ∷ held) (tidy (h ∷ held))
      (behind_result h kept t.result held)

-- The same with the opening of the handle in front.
pub deferring-IsTidy :
    {A : Type 0} (h : Handle) (kept : A → List Handle) (t : Traced (Result Error A))
    → IsTidy kept t
    → IsTidy (with_handle h kept) (behind (opens h ∷ []) (deferring h t))
deferring-IsTidy h kept t tidy held = unfold run in run-deferring h kept t tidy held

pub plain-IsTidy : {A : Type 0} (r : Result Error A) → IsTidy (λ a. []) (plain r)
unfolding run
plain-IsTidy (ok a) held = refl
plain-IsTidy (err e) held = refl

pub plain_error-IsTidy :
    {A : Type 0} (kept : A → List Handle) (e : Error) → IsTidy kept (plain (err e))
unfolding run
plain_error-IsTidy kept e held = refl
