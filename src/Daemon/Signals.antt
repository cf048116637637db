-- ===== src/Daemon/Signals.antt =====
-- The handlers of lock and unlock signals, of the curtain's exit, of authentication results and of
-- shutdown: crates/daemon/src/app/events/lifecycle.rs, events/auth.rs and events/shutdown.rs.
use veila.Prelude.{false, not, Option, none, some, if◌then◌else◌, nat_eq}
use veila.Clock.{Instant}
use veila.LockState.{unlocked, is_active}
use veila.Auth.Policy.{AuthPolicy}
use veila.Auth.State.{AuthState, finish_success, finish_failure}
use veila.Suspend.{clear}
use veila.Daemon.Messages.{LatencyReportMode, LockLatencyReport}
use veila.Daemon.Runtime.{Runtime, Result, ok, err, set_state, update_locked_hint, reset_runtime}
use veila.Daemon.Activation.{Startup, activate_and_install}
use veila.Daemon.Deactivation.{Shutdown, deactivate_lock}
use veila.Daemon.Client.{AuthResult, auth_succeeded, auth_rejected}

abbrev settle_lock : Result (Option LockLatencyReport) × Runtime → Runtime
settle_lock (_, r) = r

activate_again : Startup → LatencyReportMode → AuthPolicy → Instant → Runtime → Runtime
activate_again x mode auth_policy now r =
    settle_lock
      (activate_and_install x mode auth_policy now (record r { active_latency_report = mode }))

unfoldable pub handle_lock_signal :
    Startup → LatencyReportMode → AuthPolicy → Instant → Runtime → Runtime
unfolding activate_again
handle_lock_signal x mode auth_policy now r =
    if is_active r.state then r else activate_again x mode auth_policy now r

-- The suspend timer is cleared only if the session was unlocked.
abbrev settle_unlock : Result (Unit {0}) × Runtime → Runtime
settle_unlock (ok _, r) = record r { suspend_state = clear r.suspend_state }
settle_unlock (err _, r) = r

unfoldable pub handle_unlock_signal : Shutdown → AuthPolicy → Runtime → Runtime
unfolding clear
handle_unlock_signal y auth_policy r =
    if not (is_active r.state) then r else settle_unlock (deactivate_lock y auth_policy none r)

restart_curtain : Startup → LatencyReportMode → AuthPolicy → Instant → Runtime → Runtime
unfolding activate_again
restart_curtain x mode auth_policy now r =
    activate_again x mode auth_policy now (set_state unlocked (update_locked_hint false r).1).1

unfoldable pub handle_curtain_exit :
    Startup → LatencyReportMode → AuthPolicy → Instant → Runtime → Runtime
unfolding reset_runtime restart_curtain
handle_curtain_exit x mode auth_policy now r =
    let r' = reset_runtime auth_policy (record r { curtain = none }) in
    if is_active r.state then restart_curtain x mode auth_policy now r' else r'

-- The panic of `Instant + Duration` in `finish_failure` is `none`.
settle_failure : Option AuthState → Runtime → Option Runtime
settle_failure none r = none
settle_failure (some s) r = some (record r { auth_state = s })

-- `now` is the time at which a failure is recorded.
unfoldable pub handle_auth_result :
    Shutdown → AuthPolicy → AuthResult → Instant → Runtime → Option Runtime
unfolding settle_failure clear finish_success
handle_auth_result y auth_policy (auth_succeeded attempt_id started_at elapsed_ms) now r = some (
    settle_unlock (
      deactivate_lock y auth_policy (some attempt_id)
        (record r { auth_state = finish_success r.auth_state })))
handle_auth_result y auth_policy (auth_rejected attempt_id started_at elapsed_ms) now r =
    settle_failure (finish_failure r.auth_state now) r

unfoldable pub shutdown_runtime : Shutdown → AuthPolicy → Runtime → Runtime
shutdown_runtime y auth_policy r = (deactivate_lock y auth_policy none r).1
