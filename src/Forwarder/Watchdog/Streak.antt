-- ===== src/Forwarder/Watchdog/Streak.antt =====
-- The watchdog of internal/forwarder/forwarder.go, described by the failed probes in a row alone.
use mathlib.Core.Path.{ap₂}
use at_message_forward.Prelude.{
  ℕ, suc, Option, none, some, List, [], ◌∷◌, leb, ◌==◌, if◌then◌else◌, ◌≡◌, refl, ap, ◌∙◌, arith,
}
use at_message_forward.Text.{Text}
use at_message_forward.Forwarder.Watchdog.{
  Watchdog, initial, Alert, Probe, tick, watch, serial_watchdog_threshold,
}

-- An alert at the threshold's failure in a row, and at no other probe.
abbrev pub alerts_after : ℕ → List Probe → List (Option Alert)
alerts_after streak [] = []
alerts_after streak (none ∷ probes) = none ∷ alerts_after 0 probes
alerts_after streak (some error ∷ probes) =
    (if suc streak == serial_watchdog_threshold
      then some (record { failures = suc streak; error = error })
      else none)
    ∷ alerts_after (suc streak) probes

-- The flag says that the threshold has been passed.
abbrev IsFaithful : Watchdog → Type 0
IsFaithful w = w.alerted ≡ leb serial_watchdog_threshold w.failures

tick_failed :
    (w : Watchdog) (error : Text)
    → IsFaithful w
    → ((tick w (some error)).1 ≡ (
        if suc w.failures == serial_watchdog_threshold
        then some (record { failures = suc w.failures; error = error })
        else none))
      × IsFaithful (tick w (some error)).0
      × ((tick w (some error)).0.failures ≡ suc w.failures)
unfolding tick
tick_failed w error h = (ground arith, ground arith, ground arith)

watch-alerts_after :
    (probes : List Probe) (w : Watchdog)
    → IsFaithful w
    → watch w probes ≡ alerts_after w.failures probes
unfolding watch tick
watch-alerts_after [] w h = refl
watch-alerts_after (none ∷ probes) w h = ap (λ x. none ∷ x) (watch-alerts_after probes initial refl)
watch-alerts_after (some error ∷ probes) w h =
    let (alert, faithful, counted) = tick_failed w error h in
    ap₂ (◌∷◌) alert (
      watch-alerts_after probes (tick w (some error)).0 faithful
      ∙ ap (λ n. alerts_after n probes) counted)

-- Over every sequence of probes the watchdog raises an alert at exactly the probes that are the
-- third failure in a row, so once in each outage, with the count 3 and the error of that probe.
pub watch-initial : (probes : List Probe) → watch initial probes ≡ alerts_after 0 probes
watch-initial probes = watch-alerts_after probes initial refl
