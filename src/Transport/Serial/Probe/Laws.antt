-- ===== src/Transport/Serial/Probe/Laws.antt =====
-- When `probeOpenedATPort` of internal/transport/serial/serial.go returns, and what an answer means.
use at_message_forward.Prelude.{
  ℕ, zero, suc, ◌+◌, ◌≤◌, ◌<◌, true, not, ◌&&◌, Option, none, some, [], ◌∷◌, ◌++◌, ltb, leb, ◌==◌,
  length, Result, ok, err, ℤ, ◌≡◌, ◌≢◌, refl, sym, ap, arith, Bool-cases, inl, inr, ==_iff,
}
use mathlib.Core.Option.{some-injective}
use mathlib.Core.Path.{subst}
use at_message_forward.Text.{Text, codes, is_empty}
use at_message_forward.Transport.Serial.Probe.{
  Outcome, answered, Round, Port, response_has_at_line, or_default_timeout, give_up, Verdict,
  return_with, go_on, unless_error, hear, read_round, judge, continue_with, probe_loop,
  probe_command, after_write, after_timeout, probe_opened_at_port,
}

-- What has been heard in the rounds from `k` on, `n` of them.
abbrev pub heard : (ℕ → Round) → ℕ → ℕ → Text → Text
heard rounds k zero response = response
heard rounds k (suc n) response = heard rounds (k + 1) n (response ++ (rounds k).received)

late :
    (deadline : ℕ) (r : Round) (response : Text)
    → deadline ≤ r.tested_at
    → judge deadline r response ≡ return_with (give_up response)
unfolding judge
late deadline r response h = ground arith

go_on_total :
    (v : Verdict) (next : Text → Option Outcome)
    → ((t : Text) → next t ≢ none)
    → continue_with v next ≢ none
go_on_total (return_with o) next h = λ e. absurd (cc e)
go_on_total (go_on t) next h = h t

probe_loop-total :
    (n m : ℕ) (rounds : ℕ → Round) (deadline k : ℕ) (response : Text)
    → m ≡ k + n
    → deadline ≤ (rounds m).tested_at
    → probe_loop (suc n) rounds deadline k response ≢ none
unfolding probe_loop
probe_loop-total zero m rounds deadline k response at_k h =
    let here : m ≡ k = omega (arith, at_k) in
    rw (late deadline (rounds k) response (subst (λ j. deadline ≤ (rounds j).tested_at) here h))
      (λ e. absurd (cc e))
probe_loop-total (suc n) m rounds deadline k response at_m h =
    go_on_total (judge deadline (rounds k) response) _
      (λ t. probe_loop-total n m rounds deadline (k + 1) t (omega (arith, at_m)) h)

-- An answer: at the round's end the line `OK` has been heard, and the round began in time.
abbrev pub HeardOk : ℕ → Round → Text → Type 0
HeardOk deadline r response =
    (r.tested_at < deadline) × (response_has_at_line (response ++ r.received) (codes "OK") ≡ true)

unless_error-not_answered :
    (e : Option Text) (response : Text) → unless_error e response ≢ return_with answered
unless_error-not_answered none response h = cc h
unless_error-not_answered (some e) response h = cc h

unless_error-go_on :
    (e : Option Text) (response t : Text) → unless_error e response ≡ go_on t → response ≡ t
unless_error-go_on none response t h = cc h
unless_error-go_on (some e) response t h = absurd (cc h)

hear-answered :
    (r : Round) (response : Text)
    → hear r response ≡ return_with answered
    → response_has_at_line (response ++ r.received) (codes "OK") ≡ true
hear-answered r response h =
    elim (Bool-cases
      (not (is_empty r.received) && response_has_at_line (response ++ r.received) (codes "OK"))) [
        | inl yes_ok ↦ ground (arith, yes_ok)
        | inr no_ok ↦
            elim (Bool-cases (
              not (is_empty r.received)
              && response_has_at_line (response ++ r.received) (codes "ERROR"))) [
                | inl error ↦ absurd (cc (rw (no_ok, error) at h))
                | inr other ↦
                    absurd (unless_error-not_answered r.read_error _ (rw (no_ok, other) at h))
              ]
      ]

hear-go_on :
    (r : Round) (response t : Text) → hear r response ≡ go_on t → response ++ r.received ≡ t
hear-go_on r response t h =
    elim (Bool-cases
      (not (is_empty r.received) && response_has_at_line (response ++ r.received) (codes "OK"))) [
        | inl yes_ok ↦ absurd (cc (rw yes_ok at h))
        | inr no_ok ↦
            elim (Bool-cases (
              not (is_empty r.received)
              && response_has_at_line (response ++ r.received) (codes "ERROR"))) [
                | inl error ↦ absurd (cc (rw (no_ok, error) at h))
                | inr other ↦ unless_error-go_on r.read_error _ t (rw (no_ok, other) at h)
              ]
      ]

read_round-answered :
    (e : Option Text) (r : Round) (response : Text)
    → read_round e r response ≡ return_with answered
    → response_has_at_line (response ++ r.received) (codes "OK") ≡ true
read_round-answered none r response h = hear-answered r response h
read_round-answered (some e) r response h = absurd (cc h)

read_round-go_on :
    (e : Option Text) (r : Round) (response t : Text)
    → read_round e r response ≡ go_on t
    → response ++ r.received ≡ t
read_round-go_on none r response t h = hear-go_on r response t h
read_round-go_on (some e) r response t h = absurd (cc h)

give_up-not_answered : (response : Text) → give_up response ≢ answered
give_up-not_answered [] h = cc h
give_up-not_answered (c ∷ response) h = cc h

outcome_of : Verdict → Outcome
outcome_of (return_with o) = o
outcome_of (go_on t) = answered

judge-answered :
    (deadline : ℕ) (r : Round) (response : Text)
    → judge deadline r response ≡ return_with answered
    → HeardOk deadline r response
unfolding judge outcome_of
judge-answered deadline r response h =
    elim (Bool-cases (ltb r.tested_at deadline && not (leb deadline r.now))) [
      | inl live ↦
          (ground (arith, live), read_round-answered r.timeout_error r response (rw live at h))
      | inr dead ↦ absurd (give_up-not_answered response (ap outcome_of (rw dead at h)))
    ]

judge-go_on :
    (deadline : ℕ) (r : Round) (response t : Text)
    → judge deadline r response ≡ go_on t
    → response ++ r.received ≡ t
unfolding judge
judge-go_on deadline r response t h =
    elim (Bool-cases (ltb r.tested_at deadline && not (leb deadline r.now))) [
      | inl live ↦ read_round-go_on r.timeout_error r response t (rw live at h)
      | inr dead ↦ absurd (cc (rw dead at h))
    ]

-- Some round heard the answer, behind what the rounds before it had received.
abbrev pub Answered : (ℕ → Round) → ℕ → ℕ → Text → Type 0
Answered rounds deadline k response =
    (n : ℕ) × (m : ℕ) × (m ≡ k + n) × HeardOk deadline (rounds m) (heard rounds k n response)

later_answer :
    (rounds : ℕ → Round) (deadline k : ℕ) (response : Text)
    → Answered rounds deadline (k + 1) (response ++ (rounds k).received)
    → Answered rounds deadline k response
later_answer rounds deadline k response (n, m, at_m, ok_line) =
    (suc n, m, omega (arith, at_m), ok_line)

by_verdict :
    (v : Verdict) (rounds : ℕ → Round) (deadline k : ℕ) (response : Text)
    (next : Text → Option Outcome)
    → (v ≡ return_with answered → HeardOk deadline (rounds k) response)
    → ((t : Text) → v ≡ go_on t → response ++ (rounds k).received ≡ t)
    → ((t : Text) → next t ≡ some answered → Answered rounds deadline (k + 1) t)
    → continue_with v next ≡ some answered
    → Answered rounds deadline k response
by_verdict (return_with o) rounds deadline k response next ends goes later h =
    (0, k, omega arith, ends (ap return_with (some-injective _ _ h)))
by_verdict (go_on t) rounds deadline k response next ends goes later h =
    later_answer rounds deadline k response
      (subst (Answered rounds deadline (k + 1)) (sym (goes t refl)) (later t h))

probe_loop-answered :
    (fuel : ℕ) (rounds : ℕ → Round) (deadline k : ℕ) (response : Text)
    → probe_loop fuel rounds deadline k response ≡ some answered
    → Answered rounds deadline k response
unfolding probe_loop
probe_loop-answered zero rounds deadline k response h = absurd (cc h)
probe_loop-answered (suc fuel) rounds deadline k response h =
    by_verdict (judge deadline (rounds k) response) rounds deadline k response _
      (judge-answered deadline (rounds k) response) (judge-go_on deadline (rounds k) response)
      (λ t. probe_loop-answered fuel rounds deadline (k + 1) t) h

after_write-total :
    (fuel : ℕ) (port : Port) (timeout : ℕ) (w : Result Text ℕ)
    → probe_loop fuel port.rounds (port.start + timeout) 0 [] ≢ none
    → after_write fuel port timeout w ≢ none
after_write-total fuel port timeout (err e) h = λ x. absurd (cc x)
after_write-total fuel port timeout (ok n) h = elim (Bool-cases (n == length probe_command)) [
  | inl whole ↦ rw whole h
  | inr short ↦ rw short (λ x. absurd (cc x))
]

after_timeout-total :
    (fuel : ℕ) (port : Port) (timeout : ℕ) (e : Option Text)
    → after_write fuel port timeout port.written ≢ none
    → after_timeout fuel port timeout e ≢ none
after_timeout-total fuel port timeout none h = h
after_timeout-total fuel port timeout (some e) h = λ x. absurd (cc x)

after_write-answered :
    (fuel : ℕ) (port : Port) (timeout : ℕ) (w : Result Text ℕ)
    → after_write fuel port timeout w ≡ some answered
    → (w ≡ ok (length probe_command)) × Answered port.rounds (port.start + timeout) 0 []
after_write-answered fuel port timeout (err e) h = absurd (cc (some-injective _ _ h))
after_write-answered fuel port timeout (ok n) h = elim (Bool-cases (n == length probe_command)) [
  | inl whole ↦ (
    ap ok ((==_iff n (length probe_command)).0 whole),
    probe_loop-answered fuel port.rounds (port.start + timeout) 0 [] (rw whole at h),
  )
  | inr short ↦ absurd (cc (some-injective _ _ (rw short at h)))
]

after_timeout-answered :
    (fuel : ℕ) (port : Port) (timeout : ℕ) (e : Option Text)
    → after_timeout fuel port timeout e ≡ some answered
    → (port.written ≡ ok (length probe_command)) × Answered port.rounds (port.start + timeout) 0 []
after_timeout-answered fuel port timeout none h =
    after_write-answered fuel port timeout port.written h
after_timeout-answered fuel port timeout (some e) h = absurd (cc (some-injective _ _ h))

-- If round `n` begins at or behind the deadline, which is the time of the write plus the timeout, or
-- plus 1.5 s if that is not positive, then the probe returns within `n + 1` rounds. If it reports an
-- answer, all three bytes of the command were written, and some round that began before the
-- deadline ended with the line `OK`, up to case and outer space, in what had been received by then.
pub probe_opened_at_port-answered :
    (n : ℕ) (port : Port) (timeout : ℤ)
    → port.start + or_default_timeout timeout ≤ (port.rounds n).tested_at
    → (probe_opened_at_port (suc n) port timeout ≢ none)
      × (probe_opened_at_port (suc n) port timeout ≡ some answered
          → (port.written ≡ ok 3)
            × Answered port.rounds (port.start + or_default_timeout timeout) 0 [])
unfolding probe_opened_at_port
probe_opened_at_port-answered n port timeout h = (
  after_timeout-total (suc n) port (or_default_timeout timeout) port.timeout_error (
      after_write-total (suc n) port (or_default_timeout timeout) port.written (
        probe_loop-total n n port.rounds (port.start + or_default_timeout timeout) 0 []
          (omega arith) h)),
  after_timeout-answered (suc n) port (or_default_timeout timeout) port.timeout_error,
)
