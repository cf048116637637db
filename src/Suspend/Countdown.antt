-- ===== src/Suspend/Countdown.antt =====
-- The countdown that the daemon sends to the curtain, against the decision to suspend.
use veila.Prelude.{
  ℕ, ◌+◌, ◌-◌, ◌*◌, ◌≤◌, ◌<◌, ◌≡◌, ◌≢◌, ◌↔◌, Bool, true, false, Option, none, some, arith,
}
use veila.Clock.{Duration, Instant, instant_max, nanos_per_sec, u64_max}
use veila.Suspend.{
  BatterySnapshot, pending, LockedSuspendState, evaluate, power_status_snapshot, remaining_seconds,
  deadline_of,
}

-- A duration in seconds, rounded up, and at least one, for all but durations that reach the last
-- second of a `u64`.
pub remaining_seconds_bounds :
    (d : Duration)
    → 0 < d
    → d < u64_max * nanos_per_sec
    → (1 ≤ remaining_seconds d)
      × (d ≤ remaining_seconds d * nanos_per_sec)
      × ((remaining_seconds d - 1) * nanos_per_sec < d)
unfolding remaining_seconds
remaining_seconds_bounds d pos small = ground arith

module _ (s : LockedSuspendState) (now : Instant) (active_lock in_flight : Bool)
    (battery : Option BatterySnapshot) (media : Bool) where
  -- While a countdown is shown no suspend is requested or skipped. The seconds shown cover the time
  -- up to the deadline, and one second less would not.
  power_status_snapshot-pending :
      (seconds wait : ℕ) (since : Instant)
      → s.delay ≡ some wait
      → s.last_activity_at ≡ some since
      → since ≤ instant_max
      → power_status_snapshot s now active_lock ≡ some seconds
      → (evaluate s now active_lock in_flight battery media ≡ pending)
        × (deadline_of since wait ≤ now + seconds * nanos_per_sec)
        × (now + (seconds - 1) * nanos_per_sec < deadline_of since wait)
  unfolding evaluate power_status_snapshot
  power_status_snapshot-pending seconds wait since d a range h =
      ground (arith, remaining_seconds_bounds (deadline_of since wait - now))

  -- With a delay set and activity recorded, a locked session for which no suspend was requested
  -- shows a countdown or has a decision, never both and never neither.
  countdown_or_decision :
      (wait : Duration) (since : Instant)
      → active_lock ≡ true
      → s.suspend_requested ≡ false
      → s.delay ≡ some wait
      → s.last_activity_at ≡ some since
      → (power_status_snapshot s now active_lock ≡ none)
        ↔ (evaluate s now active_lock in_flight battery media ≢ pending)
  unfolding evaluate power_status_snapshot
  countdown_or_decision wait since l r d a = (λ h. ground arith, λ h. ground arith)
