-- ===== src/Curtain/ScreenOff.antt =====
-- When the curtain powers the outputs off: `ScreenOffState` of crates/curtain/src/state/power.rs.
use veila.Prelude.{
  ◌+◌, ◌≤◌, ◌<◌, ◌≡◌, ◌↔◌, inl, inr, Bool, true, false, not, ◌&&◌, ◌||◌, Option, none, some, arith,
  leb, if◌then◌else◌, Bool-cases, is_some, nat_eq,
}
use mathlib.Core.Option
use veila.Clock.{Instant, Duration, checked_add, saturating_duration_since, instant_max}

pub record ScreenOffState : Type 0 where
  pub delay : Option Duration
  pub last_activity_at : Option Instant
  pub outputs_powered_off : Bool

unfoldable pub new : Option Duration → ScreenOffState
new delay = record { delay = delay; last_activity_at = none; outputs_powered_off = false }

unfoldable pub set_delay : Option Duration → Instant → ScreenOffState → ScreenOffState
set_delay delay now s = record {
  delay = delay;
  last_activity_at = Option.map (λ _. now) delay;
  outputs_powered_off = s.outputs_powered_off && is_some delay;
}

unfoldable pub arm : Instant → ScreenOffState → ScreenOffState
arm now s =
    if is_some s.delay
    then record s { last_activity_at = some now; outputs_powered_off = false }
    else s

-- Whether the outputs were off and are to be woken.
unfoldable pub note_activity : Instant → ScreenOffState → ScreenOffState × Bool
note_activity now s =
    if is_some s.delay
    then (
      record s { outputs_powered_off = false; last_activity_at = some now },
      s.outputs_powered_off,
    )
    else (s, false)

unfoldable pub record_visible_activity : Instant → ScreenOffState → ScreenOffState
record_visible_activity now s =
    if not (is_some s.delay) || s.outputs_powered_off
    then s
    else record s { last_activity_at = some now }

-- `last_activity_at.checked_add(delay).unwrap_or(last_activity_at)`
unfoldable pub deadline : Instant → Duration → Instant
deadline last_activity_at delay = elim (checked_add last_activity_at delay) [
  | none ↦ last_activity_at
  | some t ↦ t
]

remaining : Option Duration → Option Instant → Instant → Option Duration
unfolding deadline
remaining none _ now = none
remaining (some delay) none now = none
remaining (some delay) (some last_activity_at) now =
    some (saturating_duration_since (deadline last_activity_at delay) now)

unfoldable pub due_in : Instant → Bool → ScreenOffState → Option Duration
unfolding remaining
due_in now session_locked s =
    if not session_locked || s.outputs_powered_off
    then none
    else remaining s.delay s.last_activity_at now

is_over : Option Duration → Option Instant → Instant → Bool
unfolding deadline
is_over none _ now = false
is_over (some delay) none now = false
is_over (some delay) (some last_activity_at) now = leb (deadline last_activity_at delay) now

unfoldable pub should_power_off : Instant → Bool → ScreenOffState → Bool
unfolding is_over
should_power_off now session_locked s =
    if not session_locked || s.outputs_powered_off
    then false
    else is_over s.delay s.last_activity_at now

unfoldable pub mark_outputs_powered_off : ScreenOffState → ScreenOffState
mark_outputs_powered_off s = record s { outputs_powered_off = true }

over_iff :
    (delay : Option Duration) (last_activity_at : Option Instant) (now : Instant)
    → (is_over delay last_activity_at now ≡ true) ↔ (remaining delay last_activity_at now ≡ some 0)
unfolding is_over remaining deadline
over_iff none last_activity_at now = (λ h. cc h, λ h. cc h)
over_iff (some delay) none now = (λ h. cc h, λ h. cc h)
over_iff (some delay) (some last_activity_at) now = (λ h. ground arith, λ h. ground arith)

-- The outputs are to be powered off exactly when the time until then, which the event loop sleeps
-- for, is zero.
should_power_off-due_in :
    (now : Instant) (session_locked : Bool) (s : ScreenOffState)
    → (should_power_off now session_locked s ≡ true) ↔ (due_in now session_locked s ≡ some 0)
unfolding should_power_off due_in
should_power_off-due_in now session_locked s =
    elim (Bool-cases (not session_locked || s.outputs_powered_off)) [
      | inl e ↦ rw e ((λ h. cc h), (λ h. cc h))
      | inr e ↦ rw e (over_iff s.delay s.last_activity_at now)
    ]

-- Deliberate activity under a screen-off delay leaves the outputs on, says whether they were off, and
-- keeps them on for the whole delay, if the clock can represent its end.
note_activity-keeps_on :
    (delay : Duration) (now later : Instant) (session_locked : Bool) (s : ScreenOffState)
    → s.delay ≡ some delay
    → now + delay ≤ instant_max
    → later < now + delay
    → let (q, woke) = note_activity now s in
      (q.outputs_powered_off ≡ false)
      × (woke ≡ s.outputs_powered_off)
      × (should_power_off later session_locked q ≡ false)
unfolding note_activity should_power_off is_over deadline
note_activity-keeps_on delay now later session_locked s e h l = ground arith
