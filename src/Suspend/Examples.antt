-- ===== src/Suspend/Examples.antt =====
-- Runs of the automatic suspend on concrete inputs.
use veila.Prelude.{◌≡◌, refl, ◌↔◌, true, false, Option, none, some, nat_eq}
use veila.Clock.{from_secs}
use veila.Suspend
use veila.Suspend.{
  BatterySnapshot, SuspendSkipReason, auth_in_flight, on_ac_power, media_playing, SuspendDecision,
  pending, ready, skipped, LockedSuspendState, evaluate, arm, note_activity, remaining_seconds,
  power_status_snapshot, deadline_of, mark_requested,
}
use veila.Suspend.Decisions.{MaySuspend, evaluate-ready_iff}
use veila.Suspend.Ticks.{Reading, request_suspend, log_skip, suspend_check}

-- Five seconds, on battery only, armed at two seconds.
abbrev armed : LockedSuspendState
armed = record {
  delay = some (from_secs 5);
  battery_only = true;
  skip_while_media_playing = true;
  last_activity_at = some (from_secs 2);
  suspend_requested = false;
  last_reported_skip_reason = none;
}

armed_by_arm : Suspend.arm (Suspend.new (some (from_secs 5)) true true) (from_secs 2) ≡ armed
unfolding Suspend.arm Suspend.new
armed_by_arm = refl

abbrev discharging : Option BatterySnapshot
discharging = some (record { percent = 40; charging = false })

abbrev plugged : Option BatterySnapshot
plugged = some (record { percent = 40; charging = true })

suspends : evaluate armed (from_secs 7) true false discharging false ≡ ready
unfolding evaluate
suspends = refl

evaluate-ready_iff_example :
    (evaluate armed (from_secs 7) true false discharging false ≡ ready)
    ↔ MaySuspend armed (from_secs 7) true false discharging false
evaluate-ready_iff_example = evaluate-ready_iff armed (from_secs 7) true false discharging false

abbrev plugged_in : Reading
plugged_in = record {
  now = from_secs 8;
  active_lock = true;
  in_flight = false;
  battery = plugged;
  media = false;
}

abbrev unplugged : Reading
unplugged = record plugged_in { now = from_secs 9; battery = discharging }

plugged_in_waits :
    suspend_check armed plugged_in
    ≡ (record armed { last_reported_skip_reason = some on_ac_power }, log_skip on_ac_power)
unfolding suspend_check
plugged_in_waits = refl

unplugged_suspends : (suspend_check armed unplugged).1 ≡ request_suspend
unfolding suspend_check
unplugged_suspends = refl
