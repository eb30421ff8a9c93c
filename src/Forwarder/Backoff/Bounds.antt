-- ===== src/Forwarder/Backoff/Bounds.antt =====
-- Bounds on the reconnect loop of internal/forwarder/forwarder.go, and when it returns.
use Prim.Native.Nat.{min}
use at_message_forward.Prelude.{
  ℕ, ◌*◌, ◌^◌, ◌≤◌, ◌<◌, Bool, true, false, List, [], ◌∷◌, if◌then◌else◌, ℤ, pos, ◌≡◌, refl, arith,
  All, ◌≤ℤ◌, Bool-cases, inl, inr, ◌↔◌,
}
use at_message_forward.Forwarder.Backoff.{
  next_backoff, Options, reconnect_initial_backoff, reconnect_max_backoff, is_closed, Round,
  running, stopped, Trace, after_wait, reconnect_from, run_reconnect_loop,
}
use at_message_forward.Forwarder.Backoff.Schedule.{
  IsLive, AreOptions, next_backoff-pos, or_default-pos,
}

abbrev pub InRange : ℕ → ℕ → ℤ → Type 0
InRange i m w = (pos i ≤ℤ w) × (w ≤ℤ pos m)

next_backoff-InRange :
    (i m b : ℕ)
    → i ≤ b
    → b ≤ m
    → m < 2 ^ 62
    → (c : ℕ) × (next_backoff (pos b) (pos m) ≡ pos c) × (i ≤ c) × (c ≤ m)
next_backoff-InRange i m b hi hm small =
    (min (b * 2) m, next_backoff-pos b m hm small, omega arith, omega arith)

in_round-InRange :
    (i m : ℕ) (d : ℤ) (before after failed : Bool) (rest : Trace)
    → InRange i m d
    → All (InRange i m) rest.waits
    → All
        (InRange i m)
        (if before
          then record { sessions = 0; waits = []; status = stopped }
          else if after
          then record { sessions = 1; waits = []; status = stopped }
          else if failed
          then record { sessions = 1; waits = d ∷ []; status = stopped }
          else after_wait d rest).waits
in_round-InRange i m d true after failed rest h hs = tt
in_round-InRange i m d false true failed rest h hs = tt
in_round-InRange i m d false false true rest h hs = (h, tt)
in_round-InRange i m d false false false rest h hs = (h, hs)

in_round-running :
    (before after failed : Bool) (d : ℤ) (rest : Trace)
    → (if before
        then record { sessions = 0; waits = []; status = stopped }
        else if after
        then record { sessions = 1; waits = []; status = stopped }
        else if failed
        then record { sessions = 1; waits = d ∷ []; status = stopped }
        else after_wait d rest).status
      ≡ running
    → ((before ≡ false) × (after ≡ false) × (failed ≡ false)) × (rest.status ≡ running)
in_round-running true after failed d rest h = absurd (cc h)
in_round-running false true failed d rest h = absurd (cc h)
in_round-running false false true d rest h = absurd (cc h)
in_round-running false false false d rest h = ((refl, refl, refl), h)

reconnect_from-InRange :
    (i m b : ℕ) (rounds : List Round)
    → i ≤ b
    → b ≤ m
    → m < 2 ^ 62
    → All (InRange i m) (reconnect_from (pos i) (pos m) (pos b) rounds).waits
unfolding reconnect_from
reconnect_from-InRange i m b [] hi hm small = tt
reconnect_from-InRange i m b (r ∷ rounds) hi hm small = elim (Bool-cases (is_closed r.ended)) [
  | inl closed ↦ rw closed (
      in_round-InRange i m (pos i) r.done_before r.done_after r.wait_failed _ (omega arith)
        (reconnect_from-InRange i m i rounds (omega arith) (omega arith) small))
  | inr failed ↦
      let (c, e, lo, hi') = next_backoff-InRange i m b hi hm small in
      rw (failed, e)
        (in_round-InRange i m (pos b) r.done_before r.done_after r.wait_failed _ (omega arith)
          (reconnect_from-InRange i m c rounds lo hi' small))
]

-- Whatever the environment does, every delay that the loop waits for lies between the first delay
-- and the limit, when the first delay is positive and not above the limit, and the limit is below
-- 2^62 ns.
pub run_reconnect_loop-InRange :
    (i m : ℕ) (rounds : List Round)
    → AreOptions i m
    → All
        (InRange i m)
        (run_reconnect_loop (record { initial_backoff = pos i; max_backoff = pos m }) rounds).waits
unfolding run_reconnect_loop
run_reconnect_loop-InRange i m rounds h =
    rw
      (
        or_default-pos i reconnect_initial_backoff h.0,
        or_default-pos m reconnect_max_backoff (omega arith),
      )
      (reconnect_from-InRange i m i rounds (omega arith) h.1 h.2)

reconnect_from-running :
    (initial max : ℤ) (rounds : List Round) (backoff : ℤ)
    → (reconnect_from initial max backoff rounds).status ≡ running
    → All IsLive rounds
unfolding reconnect_from
reconnect_from-running initial max [] backoff h = tt
reconnect_from-running initial max (r ∷ rounds) backoff h =
    let (live, rest) = in_round-running r.done_before r.done_after r.wait_failed _ _ h in
    (live, reconnect_from-running initial max rounds _ rest)

reconnect_from_live :
    (initial max : ℤ) (rounds : List Round) (backoff : ℤ)
    → All IsLive rounds
    → (reconnect_from initial max backoff rounds).status ≡ running
unfolding reconnect_from
reconnect_from_live initial max [] backoff h = refl
reconnect_from_live initial max (r ∷ rounds) backoff h =
    rw (h.0.0, h.0.1, h.0.2) (reconnect_from_live initial max rounds _ h.1)

-- Under any options the loop has not returned exactly when no round was cancelled: a session that
-- ends, with an error or without, never ends the loop.
pub run_reconnect_loop-running :
    (opts : Options) (rounds : List Round)
    → ((run_reconnect_loop opts rounds).status ≡ running) ↔ All IsLive rounds
unfolding run_reconnect_loop
run_reconnect_loop-running opts rounds =
    (reconnect_from-running _ _ rounds _, reconnect_from_live _ _ rounds _)
