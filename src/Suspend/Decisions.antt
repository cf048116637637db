-- ===== src/Suspend/Decisions.antt =====
-- When the daemon suspends a locked session, and when it holds back.
use veila.Prelude.{
  ◌+◌, ◌≤◌, ◌<◌, ◌≡◌, refl, ◌≢◌, ◌↔◌, inl, inr, Bool, true, false, Option, none, some, arith,
  some_inj, Option-cases, nat_eq,
}
use veila.Clock.{Duration, Instant, instant_max}
use veila.Suspend.{
  BatterySnapshot, SuspendSkipReason, auth_in_flight, on_ac_power, no_battery_detected,
  media_playing, pending, ready, skipped, LockedSuspendState, evaluate, note_activity,
  battery_power_state, on_battery, charging, deadline_of,
}

-- The delay of an armed state has passed since its last activity. When their sum is no `Instant` the
-- activity itself counts as the end of the delay.
pub record IsDue (s : LockedSuspendState) (now : Instant) : Type 0 where
  pub wait : Duration
  pub since : Instant
  pub delay_set : s.delay ≡ some wait
  pub activity_set : s.last_activity_at ≡ some since
  pub passed : since + wait ≤ instant_max → since + wait ≤ now
  pub unreachable : instant_max < since + wait → since ≤ now

-- There is a battery, and it is not being charged.
abbrev pub IsDischarging : Option BatterySnapshot → Type 0
IsDischarging battery = (b : BatterySnapshot) × (battery ≡ some b) × (b.charging ≡ false)

IsDischarging-on_battery :
    (battery : Option BatterySnapshot)
    → IsDischarging battery
    → battery_power_state battery ≡ on_battery
IsDischarging-on_battery none (b, e, h) = absurd (ground (arith, e))
IsDischarging-on_battery (some c) (b, e, h) = ground (arith, some_inj c b e)

on_battery-IsDischarging :
    (battery : Option BatterySnapshot)
    → battery_power_state battery ≡ on_battery
    → IsDischarging battery
on_battery-IsDischarging none h = absurd (ground (arith, h))
on_battery-IsDischarging (some b) h = (b, refl, ground arith)

-- Everything that must hold before the session is suspended.
pub record MaySuspend (s : LockedSuspendState) (now : Instant) (active_lock in_flight : Bool)
    (battery : Option BatterySnapshot) (media : Bool) : Type 0 where
  pub is_locked : active_lock ≡ true
  pub unrequested : s.suspend_requested ≡ false
  pub due : IsDue s now
  pub no_attempt : in_flight ≡ false
  pub power : s.battery_only ≡ true → IsDischarging battery
  pub quiet : s.skip_while_media_playing ≡ true → media ≡ false

-- What each reason says of the circumstances.
abbrev pub Blocks :
    LockedSuspendState → Bool → Option BatterySnapshot → Bool → SuspendSkipReason → Type 0
Blocks s in_flight battery media auth_in_flight = in_flight ≡ true
Blocks s in_flight battery media on_ac_power =
    (in_flight ≡ false) × (s.battery_only ≡ true) × (battery_power_state battery ≡ charging)
Blocks s in_flight battery media no_battery_detected =
    (in_flight ≡ false) × (s.battery_only ≡ true) × (battery ≡ none)
Blocks s in_flight battery media media_playing =
    (in_flight ≡ false) × (s.skip_while_media_playing ≡ true) × (media ≡ true)

module _ (s : LockedSuspendState) (now : Instant) (active_lock in_flight : Bool)
    (battery : Option BatterySnapshot) (media : Bool) where
  no_delay : s.delay ≡ none → evaluate s now active_lock in_flight battery media ≡ pending
  unfolding evaluate
  no_delay h = ground arith

  no_activity :
      s.last_activity_at ≡ none → evaluate s now active_lock in_flight battery media ≡ pending
  unfolding evaluate
  no_activity h = ground arith

  IsDue-of_decided : evaluate s now active_lock in_flight battery media ≢ pending → IsDue s now
  unfolding evaluate
  IsDue-of_decided h = elim (Option-cases s.delay) [
    | inl e ↦ absurd (h (no_delay e))
    | inr (d, e) ↦ elim (Option-cases s.last_activity_at) [
      | inl e' ↦ absurd (h (no_activity e'))
      | inr (t, e') ↦ record {
        wait = d;
        since = t;
        delay_set = e;
        activity_set = e';
        passed = λ fits. ground arith;
        unreachable = λ over. ground arith;
      }
    ]
  ]

  ready-MaySuspend :
      evaluate s now active_lock in_flight battery media ≡ ready
      → MaySuspend s now active_lock in_flight battery media
  unfolding evaluate
  ready-MaySuspend h = record {
    is_locked = ground arith;
    unrequested = ground arith;
    due = IsDue-of_decided (λ p. cc);
    no_attempt = ground arith;
    power = λ b. on_battery-IsDischarging battery (ground arith);
    quiet = λ q. ground arith;
  }

  MaySuspend-ready :
      MaySuspend s now active_lock in_flight battery media
      → evaluate s now active_lock in_flight battery media ≡ ready
  unfolding evaluate
  MaySuspend-ready m =
      let due = m.due in
      let power : s.battery_only ≡ true → battery_power_state battery ≡ on_battery =
        λ b. IsDischarging-on_battery battery (m.power b) in
      let over : deadline_of due.since due.wait ≤ now =
        ground (arith, due.passed, due.unreachable) in
      ground (
        arith, m.is_locked, m.unrequested, due.delay_set, due.activity_set, over, m.no_attempt,
        power, m.quiet,
      )

  -- The session is suspended exactly when it is locked, no suspend was requested since the last
  -- activity, the delay has passed since then (or the delay reaches beyond the last `Instant` and that
  -- activity is not in the future), no authentication is in flight, there is a battery that is not
  -- being charged if that is required, and no media is playing if that holds suspends back.
  pub evaluate-ready_iff :
      (evaluate s now active_lock in_flight battery media ≡ ready)
      ↔ MaySuspend s now active_lock in_flight battery media
  evaluate-ready_iff = (ready-MaySuspend, MaySuspend-ready)

  -- A suspend is skipped only when it is due in a locked session and not yet requested, and for the
  -- reason that is given.
  evaluate-skipped :
      (reason : SuspendSkipReason)
      → evaluate s now active_lock in_flight battery media ≡ skipped reason
      → (active_lock ≡ true)
        × (s.suspend_requested ≡ false)
        × IsDue s now
        × Blocks s in_flight battery media reason
  unfolding evaluate
  evaluate-skipped reason h =
      (ground arith, ground arith, IsDue-of_decided (λ p. cc), blocks reason h)
    where
      blocks :
          (reason : SuspendSkipReason)
          → evaluate s now active_lock in_flight battery media ≡ skipped reason
          → Blocks s in_flight battery media reason
      blocks auth_in_flight h = ground arith
      blocks on_ac_power h = ground arith
      blocks no_battery_detected h = ground arith
      blocks media_playing h = ground arith

-- Activity puts the suspend off by a whole delay: whatever the state was, until `delay` has passed
-- since the activity at `then` every evaluation is pending.
note_activity-postpones :
    (s : LockedSuspendState) (wait : Duration) (at now : Instant) (active_lock in_flight : Bool)
    (battery : Option BatterySnapshot) (media : Bool)
    → s.delay ≡ some wait
    → at + wait ≤ instant_max
    → now < at + wait
    → evaluate (note_activity s at) now active_lock in_flight battery media ≡ pending
unfolding evaluate note_activity
note_activity-postpones s wait at now active_lock in_flight battery media d fits early =
    ground arith
