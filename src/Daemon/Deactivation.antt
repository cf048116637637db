-- ===== src/Daemon/Deactivation.antt =====
-- Unlocking the session: `deactivate_lock` and `stop_active_curtain` of
-- crates/daemon/src/app/runtime/lock.rs.
use veila.Prelude.{ℕ, Bool, false, Option, none, some, if◌then◌else◌, nat_eq}
use veila.LockState.{unlocked, unlocking}
use veila.Background.{FilePath}
use veila.Auth.Policy.{AuthPolicy}
use veila.Daemon.Messages.{stop_curtain, wait_curtain}
use veila.Daemon.Runtime.{
  Child, Handler, ◌>>◌, return, fail, succeeded, emit, modify, set_state, force_stop,
  request_unlock, update_locked_hint, reset_runtime,
}

-- `wait_for_graceful_curtain_exit`
pub data GracefulExit : Type 0 where
  gone : GracefulExit
  still_running : GracefulExit
  wait_error : GracefulExit

-- What the outside answers: whether the unlock request was delivered, how the wait after it ended,
-- and whether the curtain could be stopped by force.
pub record Shutdown : Type 0 where
  pub unlock_requested : Bool
  pub graceful : GracefulExit
  pub force_stopped : Bool

force_stop_curtain : Shutdown → Child → Handler (Unit {0})
force_stop_curtain y child = do emit (force_stop child); succeeded y.force_stopped stop_curtain

after_request : GracefulExit → Shutdown → Child → Handler (Unit {0})
unfolding force_stop_curtain
after_request gone y child = return tt
after_request still_running y child = force_stop_curtain y child
after_request wait_error y child = fail wait_curtain

stop_active_curtain : Shutdown → Child → Option FilePath → Option ℕ → Handler (Unit {0})
unfolding after_request
stop_active_curtain y child none attempt_id = force_stop_curtain y child
stop_active_curtain y child (some path) attempt_id = do
  emit (request_unlock path attempt_id)
  if y.unlock_requested then after_request y.graceful y child else force_stop_curtain y child

deactivate_curtain : Shutdown → AuthPolicy → Option ℕ → Option Child → Handler (Unit {0})
unfolding stop_active_curtain reset_runtime
deactivate_curtain y auth_policy attempt_id none = do
  set_state unlocked
  modify (reset_runtime auth_policy)
  update_locked_hint false
deactivate_curtain y auth_policy attempt_id (some child) = do
  set_state unlocking
  modify (λ r. record r { curtain = none })
  (λ r. stop_active_curtain y child r.control_socket_path attempt_id r)
  modify (reset_runtime auth_policy)
  set_state unlocked
  update_locked_hint false

unfoldable pub deactivate_lock : Shutdown → AuthPolicy → Option ℕ → Handler (Unit {0})
unfolding deactivate_curtain
deactivate_lock y auth_policy attempt_id r = deactivate_curtain y auth_policy attempt_id r.curtain r
