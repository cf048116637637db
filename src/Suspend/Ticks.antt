-- ===== src/Suspend/Ticks.antt =====
-- The suspend part of the daemon's tick, `auto_reload_tick` of `run` in crates/daemon/src/app/mod.rs:
-- what follows the decision of `evaluate`. Daemon/Ticks has the whole tick.
use veila.Prelude.{
  ℕ, ◌+◌, ◌≤◌, ◌≡◌, ◌≢◌, ◌⊎◌, Bool, true, Option, none, some, List, [], ◌∷◌, arith, nat_eq,
}
use veila.Clock.{Instant}
use veila.Suspend.{
  BatterySnapshot, SuspendSkipReason, auth_in_flight, SuspendDecision, pending, ready, skipped,
  LockedSuspendState, evaluate, clear_reported_skip_reason, mark_requested, note_skip_reason,
}

-- What a tick reads: the time, the lock, the authentication, the battery, the media.
pub record Reading : Type 0 where
  pub now : Instant
  pub active_lock : Bool
  pub in_flight : Bool
  pub battery : Option BatterySnapshot
  pub media : Bool

-- What a tick does outside: ask logind for a suspend, log a skip reason, or neither. (Before it
-- asks for a suspend it also arms the curtain's resume guard; neither outcome is read.)
pub data TickEffect : Type 0 where
  quiet : TickEffect
  request_suspend : TickEffect
  log_skip : SuspendSkipReason → TickEffect

log_effect : Option SuspendSkipReason → TickEffect
log_effect none = quiet
log_effect (some reason) = log_skip reason

act_on : SuspendDecision → LockedSuspendState → LockedSuspendState × TickEffect
act_on ready s = (mark_requested (clear_reported_skip_reason s), request_suspend)
act_on (skipped reason) s =
    let (s', reported) = note_skip_reason s reason in (s', log_effect reported)
act_on pending s = (clear_reported_skip_reason s, quiet)

unfoldable pub suspend_check : LockedSuspendState → Reading → LockedSuspendState × TickEffect
unfolding act_on log_effect evaluate mark_requested clear_reported_skip_reason note_skip_reason
suspend_check s r = act_on (evaluate s r.now r.active_lock r.in_flight r.battery r.media) s

abbrev pub is_request : TickEffect → ℕ
is_request request_suspend = 1
is_request _ = 0

abbrev pub requests : List TickEffect → ℕ
requests [] = 0
requests (e ∷ es) = is_request e + requests es

pub suspend_check_requested :
    (s : LockedSuspendState) (r : Reading)
    → s.suspend_requested ≡ true
    → ((suspend_check s r).0.suspend_requested ≡ true) × (is_request (suspend_check s r).1 ≡ 0)
unfolding suspend_check
suspend_check_requested s r h = ground arith

pub suspend_check_request :
    (s : LockedSuspendState) (r : Reading)
    → ((suspend_check s r).0.suspend_requested ≡ true) ⊎ (is_request (suspend_check s r).1 ≡ 0)
unfolding suspend_check
suspend_check_request s r = ground arith

pub is_request-le : (e : TickEffect) → is_request e ≤ 1
is_request-le e = ground arith

tick_logged :
    (s : LockedSuspendState) (r : Reading) (reason : SuspendSkipReason)
    → (suspend_check s r).1 ≡ log_skip reason
    → (suspend_check s r).0.last_reported_skip_reason ≡ some reason
unfolding suspend_check
tick_logged s r reason h = ground arith

tick_silent :
    (s : LockedSuspendState) (r : Reading) (reason : SuspendSkipReason)
    → s.last_reported_skip_reason ≡ some reason
    → (suspend_check s r).1 ≢ log_skip reason
unfolding suspend_check
tick_silent s r auth_in_flight h = ground arith
tick_silent s r _ h = ground arith

-- A skip reason that was just logged is not logged again by the next tick.
pub suspend_check-log_once :
    (s : LockedSuspendState) (r r' : Reading) (reason : SuspendSkipReason)
    → (suspend_check s r).1 ≡ log_skip reason
    → (suspend_check (suspend_check s r).0 r').1 ≢ log_skip reason
suspend_check-log_once s r r' reason h again =
    tick_silent (suspend_check s r).0 r' reason (tick_logged s r reason h) again
