-- ===== src/Suspend.antt =====
-- Automatic suspend of a locked session: `LockedSuspendState` of
-- crates/daemon/src/app/suspend.rs. Methods that mutate return the new state; the battery
-- snapshot is that of crates/common/src/battery.rs.
use veila.Prelude.{
  ℕ, zero, suc, ◌+◌, ◌-◌, ◌*◌, ◌/◌, ◌%◌, ◌^◌, ◌≤◌, ◌<◌, min, max, ◌≡◌, refl, sym, ap, subst, ◌∙◌,
  ◌≢◌, ◌↔◌, ◌⊎◌, inl, inr, Bool, true, false, not, ◌&&◌, ◌||◌, Option, none, some, List, [], ◌∷◌,
  ◌++◌, map, arith, ltb, leb, ◌==◌, if◌then◌else◌, ltb→lt, lt→ltb, leb→le, Bool-cases, Option-cases,
  is_some, or_else, length, get_elem?, length-append, PartialEq, eq_option, eq_option_iff,
}
pub mod Decisions
pub mod Countdown
pub mod Ticks
mod Examples
use mathlib.Core.Option
use veila.Clock.{
  Duration, Instant, as_secs, subsec_nanos, checked_add, saturating_duration_since,
  saturating_add_u64,
}

pub record BatterySnapshot : Type 0 where
  pub percent : ℕ  -- u8
  pub charging : Bool

pub data SuspendSkipReason : Type 0 where
  auth_in_flight on_ac_power no_battery_detected media_playing : SuspendSkipReason

abbrev pub eq_reason : SuspendSkipReason → SuspendSkipReason → Bool
eq_reason auth_in_flight auth_in_flight = true
eq_reason on_ac_power on_ac_power = true
eq_reason no_battery_detected no_battery_detected = true
eq_reason media_playing media_playing = true
eq_reason _ _ = false

pub eq_reason_iff : (a b : SuspendSkipReason) → (eq_reason a b ≡ true) ↔ (a ≡ b)
eq_reason_iff auth_in_flight b = (λ h. ground arith, λ h. ground arith)
eq_reason_iff _ b = (λ h. ground arith, λ h. ground arith)

instance abbrev pub reason_eq : PartialEq SuspendSkipReason
reason_eq = record { eq = eq_reason; eq_iff = eq_reason_iff }

pub data SuspendDecision : Type 0 where
  pending : SuspendDecision
  ready : SuspendDecision
  skipped : SuspendSkipReason → SuspendDecision

pub record LockedSuspendState : Type 0 where
  pub delay : Option Duration
  pub battery_only : Bool
  pub skip_while_media_playing : Bool
  pub last_activity_at : Option Instant
  pub suspend_requested : Bool
  pub last_reported_skip_reason : Option SuspendSkipReason

unfoldable pub new : Option Duration → Bool → Bool → LockedSuspendState
new delay battery_only skip_while_media_playing = record {
  delay = delay;
  battery_only = battery_only;
  skip_while_media_playing = skip_while_media_playing;
  last_activity_at = none;
  suspend_requested = false;
  last_reported_skip_reason = none;
}

unfoldable pub set_policy :
    LockedSuspendState → Option Duration → Bool → Bool → Instant → Bool → LockedSuspendState
set_policy s delay battery_only skip_while_media_playing now active_lock = record s {
  delay = delay;
  battery_only = battery_only;
  skip_while_media_playing = skip_while_media_playing;
  suspend_requested = false;
  last_reported_skip_reason = none;
  last_activity_at =
      if not active_lock || not (is_some delay)
      then none
      else or_else s.last_activity_at (some now);
}

unfoldable pub arm : LockedSuspendState → Instant → LockedSuspendState
arm s now = if not (is_some s.delay) then s else record s {
  last_activity_at = some now;
  suspend_requested = false;
  last_reported_skip_reason = none;
}

unfoldable pub clear : LockedSuspendState → LockedSuspendState
clear s = record s {
  last_activity_at = none;
  suspend_requested = false;
  last_reported_skip_reason = none;
}

unfoldable pub note_activity : LockedSuspendState → Instant → LockedSuspendState
note_activity s now = if not (is_some s.delay) then s else record s {
  last_activity_at = some now;
  suspend_requested = false;
  last_reported_skip_reason = none;
}

pub data BatteryPowerState : Type 0 where
  on_battery charging unavailable : BatteryPowerState

abbrev pub battery_power_state : Option BatterySnapshot → BatteryPowerState
battery_power_state none = unavailable
battery_power_state (some snapshot) = if not snapshot.charging then on_battery else charging

-- `last_activity_at.checked_add(delay).unwrap_or(last_activity_at)`
abbrev pub deadline_of : Instant → Duration → Instant
deadline_of last_activity_at delay =
    Option.get_or (checked_add last_activity_at delay) last_activity_at

-- The part of `evaluate` that stands behind the deadline test.
abbrev media_check : LockedSuspendState → Bool → SuspendDecision
media_check s media = if s.skip_while_media_playing && media then skipped media_playing else ready

abbrev battery_check : BatteryPowerState → LockedSuspendState → Bool → SuspendDecision
battery_check on_battery s media = media_check s media
battery_check charging s media = skipped on_ac_power
battery_check unavailable s media = skipped no_battery_detected

evaluate_due : LockedSuspendState → Bool → Option BatterySnapshot → Bool → SuspendDecision
evaluate_due s in_flight battery media =
    if in_flight
    then skipped auth_in_flight
    else if s.battery_only
    then battery_check (battery_power_state battery) s media
    else media_check s media

evaluate_armed :
    Option Duration
    → Option Instant
    → LockedSuspendState
    → Instant
    → Bool
    → Option BatterySnapshot
    → Bool
    → SuspendDecision
unfolding evaluate_due
evaluate_armed none _ s now in_flight battery media = pending
evaluate_armed (some delay) none s now in_flight battery media = pending
evaluate_armed (some delay) (some last_activity_at) s now in_flight battery media =
    if ltb now (deadline_of last_activity_at delay)
    then pending
    else evaluate_due s in_flight battery media

unfoldable pub evaluate :
    LockedSuspendState → Instant → Bool → Bool → Option BatterySnapshot → Bool → SuspendDecision
unfolding evaluate_armed
evaluate s now active_lock in_flight battery media =
    if not active_lock || s.suspend_requested
    then pending
    else evaluate_armed s.delay s.last_activity_at s now in_flight battery media

unfoldable pub note_skip_reason :
    LockedSuspendState → SuspendSkipReason → LockedSuspendState × Option SuspendSkipReason
note_skip_reason s reason =
    if eq_option s.last_reported_skip_reason (some reason)
    then (s, none)
    else (record s { last_reported_skip_reason = some reason }, some reason)

unfoldable pub clear_reported_skip_reason : LockedSuspendState → LockedSuspendState
clear_reported_skip_reason s = record s { last_reported_skip_reason = none }

unfoldable pub mark_requested : LockedSuspendState → LockedSuspendState
mark_requested s = record s { suspend_requested = true; last_reported_skip_reason = none }

-- Seconds left, a started second counted whole.
unfoldable pub remaining_seconds : Duration → ℕ
remaining_seconds d =
    if subsec_nanos d == 0 then max (as_secs d) 1 else saturating_add_u64 (as_secs d) 1

-- `LockPowerStatusSnapshot` has one field, the seconds left.
snapshot_armed : Option Duration → Option Instant → Instant → Option ℕ
snapshot_armed none _ now = none
snapshot_armed (some delay) none now = none
snapshot_armed (some delay) (some last_activity_at) now =
    let deadline = deadline_of last_activity_at delay in
    if leb deadline now
    then none
    else some (remaining_seconds (saturating_duration_since deadline now))

unfoldable pub power_status_snapshot : LockedSuspendState → Instant → Bool → Option ℕ
unfolding snapshot_armed
power_status_snapshot s now active_lock =
    if not active_lock || s.suspend_requested
    then none
    else snapshot_armed s.delay s.last_activity_at now
