-- ===== src/Daemon/Outcomes.antt =====
-- What a finished attempt to lock or to unlock leaves behind, and what the replies promise.
use veila.Prelude.{
  ℕ, ◌≡◌, ◌↔◌, ◌⊎◌, Bool, true, false, Option, none, some, arith, is_some, get_elem?, nat_eq,
}
use veila.Clock.{Instant}
use veila.LockState.{unlocked, locking, locked, unlocking}
use veila.Auth.Policy.{AuthPolicy}
use veila.Auth.State
use veila.Daemon.Messages.{LatencyReportMode, LockLatencyReport, lock_now, wait_curtain, Failure}
use veila.Daemon.Runtime.{Runtime, ok, err, locked_hint}
use veila.Daemon.Activation.{Startup, wait_failed, connected, activate_lock, activate_and_install}
use veila.Daemon.Deactivation.{Shutdown, deactivate_lock}
use veila.Daemon.Client.{received}
use veila.Daemon.Control.{
  ControlAnswers, handle_control_connection, choose_background, locked_response,
  build_daemon_status,
}
use veila.Daemon.Consistency.{IsHeld, IsFree, IsConsistent}

module _ (x : Startup) (mode : LatencyReportMode) (auth_policy : AuthPolicy) (now : Instant)
    (r : Runtime) where
  -- When locking succeeds the curtain has reported that it is ready, the state is `locked`, curtain,
  -- sockets and channels are installed, the authentication state is fresh, and the last thing done
  -- outside was to set logind's locked hint.
  pub activate_and_install-ok :
      (report : Option LockLatencyReport)
      → (activate_and_install x mode auth_policy now r).0 ≡ ok report
      → let r' = (activate_and_install x mode auth_policy now r).1 in
        (x.readiness ≡ connected)
        × (r'.state ≡ locked)
        × IsHeld r'
        × (r'.auth_state ≡ State.new auth_policy)
        × (get_elem? r'.log 0 ≡ some (locked_hint true))
  unfolding activate_and_install activate_lock
  activate_and_install-ok report h = ground arith

  -- When locking fails from the unlocked state, nothing of the lock is installed (curtain, listener,
  -- the paths of both sockets, both ends of the result channel), the authentication state and the
  -- suspend timer are as before, and the state is `unlocked` again, unless waiting for the curtain
  -- failed: then the state is `locking`.
  pub activate_and_install-err :
      (reason : Failure)
      → r.state ≡ unlocked
      → (activate_and_install x mode auth_policy now r).0 ≡ err reason
      → let r' = (activate_and_install x mode auth_policy now r).1 in
        ((r'.state ≡ unlocked)
          ⊎ ((r'.state ≡ locking) × (x.readiness ≡ wait_failed) × (reason ≡ wait_curtain)))
        × (r'.curtain ≡ r.curtain)
        × (r'.auth_listener ≡ r.auth_listener)
        × (r'.auth_socket_path ≡ r.auth_socket_path)
        × (r'.control_socket_path ≡ r.control_socket_path)
        × (r'.auth_results ≡ r.auth_results)
        × (r'.auth_sender ≡ r.auth_sender)
        × (r'.auth_state ≡ r.auth_state)
        × (r'.suspend_state ≡ r.suspend_state)
  unfolding activate_and_install activate_lock
  activate_and_install-err reason u h = ground arith

module _ (y : Shutdown) (auth_policy : AuthPolicy) (attempt_id : Option ℕ) (r : Runtime) where
  -- When unlocking succeeds the state is `unlocked`, nothing of the lock is held, the authentication
  -- state is fresh, and the last thing done outside was to clear logind's locked hint.
  pub deactivate_lock-ok :
      (deactivate_lock y auth_policy attempt_id r).0 ≡ ok tt
      → let r' = (deactivate_lock y auth_policy attempt_id r).1 in
        (r'.state ≡ unlocked)
        × IsFree r'
        × (r'.auth_state ≡ State.new auth_policy)
        × (get_elem? r'.log 0 ≡ some (locked_hint false))
  unfolding deactivate_lock
  deactivate_lock-ok h = ground arith

  -- When unlocking fails a curtain was running and is no longer tracked, the state stays
  -- `unlocking`, and the authentication listener, the paths of both sockets, both ends of the result
  -- channel and the authentication state are as before.
  pub deactivate_lock-err :
      (reason : Failure)
      → (deactivate_lock y auth_policy attempt_id r).0 ≡ err reason
      → let r' = (deactivate_lock y auth_policy attempt_id r).1 in
        (is_some r.curtain ≡ true)
        × (r'.curtain ≡ none)
        × (r'.state ≡ unlocking)
        × (r'.auth_listener ≡ r.auth_listener)
        × (r'.auth_socket_path ≡ r.auth_socket_path)
        × (r'.control_socket_path ≡ r.control_socket_path)
        × (r'.auth_results ≡ r.auth_results)
        × (r'.auth_sender ≡ r.auth_sender)
        × (r'.auth_state ≡ r.auth_state)
  unfolding deactivate_lock
  deactivate_lock-err reason h = ground arith

module _ (a : ControlAnswers) (force_emergency_ui : Bool) (mode : LatencyReportMode)
    (r : Runtime) where
  -- A client that waits for the lock and is told that the session was locked just now finds it
  -- locked, with the curtain and everything else installed.
  pub lock_now-locked :
      (report : Option LockLatencyReport)
      → (handle_control_connection a (received (lock_now true force_emergency_ui mode)) r).0
        ≡ ok (some (locked_response false report), false)
      → let r' =
          (handle_control_connection a (received (lock_now true force_emergency_ui mode)) r).1 in
        (r'.state ≡ locked) × IsHeld r'
  unfolding handle_control_connection
  lock_now-locked report h =
      let r1 = choose_background a.seed (record r { active_latency_report = mode }) in
      ground (arith, activate_and_install-ok a.startup mode r.auth_policy a.now r1 report)

-- The status that the daemon reports offers a live reload exactly in the state `locked`.
pub build_daemon_status-live :
    (r : Runtime)
    → IsConsistent r
    → (build_daemon_status r).live_reload_available ≡ true ↔ (r.state ≡ locked)
unfolding build_daemon_status
build_daemon_status-live r c = (λ h. ground arith, λ h. ground arith)
