-- ===== src/Daemon/Consistency.antt =====
-- What holds of the daemon's state between two events, and that every handler keeps it.
use veila.Prelude.{
  ℕ, ◌≡◌, refl, inl, inr, true, false, Option, none, some, ◌∷◌, arith, Bool-cases, is_some, nat_eq,
}
use veila.Clock.{Instant}
use veila.LockState.{LockState, unlocked, locking, locked, unlocking, is_active}
use veila.Auth.Policy.{AuthPolicy}
use veila.Auth.State.{finish_success}
use veila.Daemon.Messages.{
  LatencyReportMode, ClientMessage, submit_password, cancel_authentication, activity,
  request_power_action, DaemonControlMessage, lock_now, stop, status, health, reload_config,
  ReloadSource,
}
use veila.Daemon.Runtime.{LoadedConfig, Runtime, reset_runtime, locked_hint}
use veila.Daemon.Activation.{Startup, activate_lock, activate_and_install}
use veila.Daemon.Deactivation.{Shutdown, deactivate_lock}
use veila.Daemon.Client.{
  AuthResult, auth_succeeded, auth_rejected, Delivery, Incoming, unreadable, closed, received,
  handle_auth_connection,
}
use veila.Daemon.Signals.{
  handle_lock_signal, handle_unlock_signal, handle_curtain_exit, handle_auth_result,
}
use veila.Daemon.Control.{
  Reload, ControlAnswers, auto_reload, choose_background, handle_control_connection,
}

-- Nothing of a lock is held.
pub record IsFree (r : Runtime) : Type 0 where
  pub no_curtain : r.curtain ≡ none
  pub no_listener : r.auth_listener ≡ none
  pub no_auth_path : r.auth_socket_path ≡ none
  pub no_control_path : r.control_socket_path ≡ none
  pub no_results : r.auth_results ≡ none
  pub no_sender : r.auth_sender ≡ none

-- Everything of a lock is held.
pub record IsHeld (r : Runtime) : Type 0 where
  pub curtain_runs : is_some r.curtain ≡ true
  pub listens : is_some r.auth_listener ≡ true
  pub has_auth_path : is_some r.auth_socket_path ≡ true
  pub has_control_path : is_some r.control_socket_path ≡ true
  pub has_results : is_some r.auth_results ≡ true
  pub has_sender : is_some r.auth_sender ≡ true

-- The invariant: a curtain runs exactly in the state `locked`, and then its sockets and channels
-- are there; an unlocked daemon holds nothing, and one left in `locking` neither. A failed unlock
-- leaves the state `unlocking`, where only the curtain is known to be gone.
pub record IsConsistent (r : Runtime) : Type 0 where
  pub locked_held : r.state ≡ locked → IsHeld r
  pub unlocked_free : r.state ≡ unlocked → IsFree r
  pub locking_free : r.state ≡ locking → IsFree r
  pub unlocking_gone : r.state ≡ unlocking → r.curtain ≡ none

module _ (x : Startup) (mode : LatencyReportMode) (auth_policy : AuthPolicy) (now : Instant) where
  activate_and_install-IsConsistent :
      (r : Runtime)
      → r.state ≡ unlocked
      → IsConsistent r
      → IsConsistent (activate_and_install x mode auth_policy now r).1
  unfolding activate_and_install activate_lock
  activate_and_install-IsConsistent r h c = ground (arith, c.unlocked_free h)

module _ (y : Shutdown) (auth_policy : AuthPolicy) (attempt_id : Option ℕ) where
  deactivate_lock-IsConsistent :
      (r : Runtime) → IsConsistent r → IsConsistent (deactivate_lock y auth_policy attempt_id r).1
  unfolding deactivate_lock
  deactivate_lock-IsConsistent r c = ground arith

inactive_unlocked : (s : LockState) → is_active s ≡ false → s ≡ unlocked
inactive_unlocked s h = ground arith

module _ (x : Startup) (mode : LatencyReportMode) (auth_policy : AuthPolicy) (now : Instant) where
  pub handle_lock_signal-IsConsistent :
      (r : Runtime) → IsConsistent r → IsConsistent (handle_lock_signal x mode auth_policy now r)
  unfolding handle_lock_signal
  handle_lock_signal-IsConsistent r c = elim (Bool-cases (is_active r.state)) [
    | inl active ↦ rw active c
    | inr inactive ↦
        let r' = record r { active_latency_report = mode } in
        let u = inactive_unlocked r.state inactive in
        let c' : IsConsistent r' = ground arith in
        rw inactive (activate_and_install-IsConsistent x mode auth_policy now r' u c')
  ]

  pub handle_curtain_exit-IsConsistent :
      (r : Runtime) → IsConsistent r → IsConsistent (handle_curtain_exit x mode auth_policy now r)
  unfolding handle_curtain_exit
  handle_curtain_exit-IsConsistent r c = elim (Bool-cases (is_active r.state)) [
    | inl active ↦
        let cleared = reset_runtime auth_policy (record r { curtain = none }) in
        let r' = record cleared {
          state = unlocked;
          log = locked_hint false ∷ cleared.log;
          active_latency_report = mode;
        } in
        let c' : IsConsistent r' = ground arith in
        rw active (activate_and_install-IsConsistent x mode auth_policy now r' refl c')
    | inr inactive ↦ rw inactive (ground arith)
  ]

module _ (y : Shutdown) (auth_policy : AuthPolicy) where
  pub handle_unlock_signal-IsConsistent :
      (r : Runtime) → IsConsistent r → IsConsistent (handle_unlock_signal y auth_policy r)
  unfolding handle_unlock_signal
  handle_unlock_signal-IsConsistent r c =
      ground (arith, deactivate_lock-IsConsistent y auth_policy none r)

  pub handle_auth_result-IsConsistent :
      (result : AuthResult) (now : Instant) (r : Runtime) {r' : Runtime}
      → IsConsistent r
      → handle_auth_result y auth_policy result now r ≡ some r'
      → IsConsistent r'
  unfolding handle_auth_result
  handle_auth_result-IsConsistent (auth_succeeded n t e) now r c h =
      let r1 = record r { auth_state = finish_success r.auth_state } in
      let c1 : IsConsistent r1 = ground arith in
      ground (arith, deactivate_lock-IsConsistent y auth_policy (some n) r1 c1)
  handle_auth_result-IsConsistent (auth_rejected n t e) now r c h = ground arith

pub handle_auth_connection-IsConsistent :
    (d : Delivery) (m : Incoming ClientMessage) (r : Runtime)
    → IsConsistent r
    → IsConsistent (handle_auth_connection d m r).1
unfolding handle_auth_connection
handle_auth_connection-IsConsistent d (unreadable e) r c = c
handle_auth_connection-IsConsistent d closed r c = c
handle_auth_connection-IsConsistent d (received activity) r c = ground arith
handle_auth_connection-IsConsistent d (received cancel_authentication) r c = ground arith
handle_auth_connection-IsConsistent d (received (request_power_action a)) r c = ground arith
handle_auth_connection-IsConsistent d (received (submit_password n s)) r c = ground arith

pub auto_reload-IsConsistent :
    (a : Reload) (c : LoadedConfig) (source : ReloadSource) (r : Runtime)
    → IsConsistent r
    → IsConsistent (auto_reload a c source r)
unfolding auto_reload
auto_reload-IsConsistent a c source r k = ground arith

pub handle_control_connection-IsConsistent :
    (a : ControlAnswers) (m : Incoming DaemonControlMessage) (r : Runtime)
    → IsConsistent r
    → IsConsistent (handle_control_connection a m r).1
unfolding handle_control_connection
handle_control_connection-IsConsistent a (unreadable e) r c = c
handle_control_connection-IsConsistent a closed r c = c
handle_control_connection-IsConsistent a (received stop) r c = c
handle_control_connection-IsConsistent a (received status) r c = c
handle_control_connection-IsConsistent a (received health) r c = c
handle_control_connection-IsConsistent a (received reload_config) r c = ground arith
handle_control_connection-IsConsistent a (received (lock_now wait_ready force mode)) r c =
    elim (Bool-cases (is_active r.state)) [
      | inl active ↦ rw active (ground arith)
      | inr inactive ↦
          let r1 = choose_background a.seed (record r { active_latency_report = mode }) in
          let c1 : IsConsistent r1 = ground arith in
          rw inactive (
            ground (
              arith,
              activate_and_install-IsConsistent a.startup mode r.auth_policy a.now r1
                  (inactive_unlocked r.state inactive) c1,
            ))
    ]
