-- ===== src/Daemon/Examples.antt =====
-- Runs of the daemon on concrete inputs.
mod Sockets
mod Ticking
use veila.Prelude.{
  ℕ, zero, suc, ◌+◌, ◌-◌, ◌*◌, ◌/◌, ◌%◌, ◌^◌, ◌≤◌, ◌<◌, min, max, ◌≡◌, refl, sym, ap, subst, ◌∙◌,
  ◌≢◌, ◌↔◌, ◌⊎◌, inl, inr, Bool, true, false, not, ◌&&◌, ◌||◌, Option, none, some, List, [], ◌∷◌,
  ◌++◌, map, arith, ltb, leb, ◌==◌, if◌then◌else◌, ltb→lt, lt→ltb, leb→le, Bool-cases, and_parts,
  le→leb, lt→not_leb, le→not_ltb, not_ltb→le, branches, if_true, if_false, some_inj, List-cases,
  Option-cases, is_some, or_else, length, get_elem?, get_elem?-some, length-append, set, is_empty,
  length-set, nat_eq, PartialEq, eq_option, eq_option_iff,
}
use veila.Clock.{from_secs}
use veila.LockState.{is_active, unlocked, locking, locked, unlocking}
use veila.Auth.Policy
use veila.Auth.Policy.{AuthPolicy, multiplier, failure_delay}
use veila.Auth.State
use veila.Auth.State.{
  AuthState, admit, allowed, finish_failure, start_attempt, next_failed_attempts,
}
use veila.Suspend.{LockedSuspendState}
use veila.Daemon.Messages.{
  disabled, submit_password, authentication_accepted, authentication_rejected, lock_now,
  stop_curtain, readiness_timeout, wait_curtain,
}
use veila.Daemon.Runtime.{LoadedConfig, Runtime, ok, locked_hint, start_worker, AuthAttempt}
use veila.Daemon.Activation.{
  Startup, connected, timed_out, wait_failed, activate_lock, activate_and_install,
}
use veila.Daemon.Deactivation.{Shutdown, gone, still_running, deactivate_lock}
use veila.Daemon.Client.{
  Delivery, received, accepted, rejected, run_auth_attempt, auth_succeeded, auth_rejected,
  handle_client_message, handle_auth_connection,
}
use veila.Daemon.Signals.{handle_lock_signal, handle_unlock_signal, handle_auth_result}
use veila.Daemon.Control.{
  Reload, ControlAnswers, locked_response, handle_control_connection, choose_background,
}
use veila.Daemon.Consistency.{IsHeld, IsFree, IsConsistent}
use veila.Daemon.Outcomes.{
  activate_and_install-ok, activate_and_install-err, deactivate_lock-ok, deactivate_lock-err,
  lock_now-locked,
}
use veila.Daemon.Loop.{
  init, Reach, Pass, survives, here, next, lock_signal, auth_connection, Reach-IsConsistent,
}
use veila.Daemon.Release.{
  StaysLocked, SameThrottle, Pass-StaysLocked, Pass-SameThrottle, releases, settles,
}
use veila.Daemon.Wedge.{WithoutUnlock, begin, then_step, is_unlock, wait_failed-stays}
use veila.Daemon.Workers.{workers, serve, workers-serve-le}

abbrev config : LoadedConfig
config = record {
  path = none;
  auth_backoff_base_ms = 750;
  auth_backoff_max_seconds = 12;
  suspend_seconds = some 60;
  suspend_only_on_battery = false;
  skip_suspend_while_media_playing = false;
  background = record {
    slideshow_enabled = false;
    slideshow = none;
    resolved_slideshow_paths = none;
  };
  prewarm_inputs = 0;
}

abbrev policy : AuthPolicy
policy = record { base_delay = 750000000; max_delay = 12000000000 }

abbrev untried : AuthState
untried = record { failed_attempts = 0; retry_after = none; in_flight = false; policy = policy }

abbrev timer : LockedSuspendState
timer = record {
  delay = some (from_secs 60);
  battery_only = false;
  skip_while_media_playing = false;
  last_activity_at = none;
  suspend_requested = false;
  last_reported_skip_reason = none;
}

-- A daemon that was just started, and the same with a lock.
abbrev idle : Runtime
idle = record {
  loaded_config = config;
  last_reload_result = none;
  last_reload_unix_ms = none;
  auth_policy = policy;
  state = unlocked;
  curtain = none;
  auth_listener = none;
  auth_socket_path = none;
  control_socket_path = none;
  auth_results = none;
  auth_sender = none;
  auth_state = untried;
  active_latency_report = disabled;
  background_selection = none;
  suspend_state = timer;
  log = [];
}

init-idle : init config ≡ idle
unfolding init Policy.new
init-idle = refl

abbrev pub held : Runtime
held = record idle {
  state = locked;
  curtain = some 6;
  auth_listener = some 5;
  auth_socket_path = some 2;
  control_socket_path = some 3;
  auth_results = some 7;
  auth_sender = some 7;
  suspend_state = record timer { last_activity_at = some 0 };
  log = [];
}

held-IsConsistent : IsConsistent held
held-IsConsistent = ground arith

abbrev startup : Startup
startup = record {
  notify_socket_path = some 1;
  auth_socket_path = some 2;
  control_socket_path = some 3;
  notify_listener = some 4;
  auth_listener = some 5;
  spawned = some 6;
  channel = 7;
  readiness = connected;
  curtain_report = none;
  figures = 0;
  force_stopped = true;
}

abbrev slow : Startup
slow = record startup { readiness = timed_out }

abbrev broken_wait : Startup
broken_wait = record startup { readiness = wait_failed }

activate_and_install-ok_example :
    let r' = (activate_and_install startup disabled policy 0 idle).1 in
    (startup.readiness ≡ connected)
    × (r'.state ≡ locked)
    × IsHeld r'
    × (r'.auth_state ≡ State.new policy)
    × (get_elem? r'.log 0 ≡ some (locked_hint true))
unfolding activate_and_install activate_lock
activate_and_install-ok_example = activate_and_install-ok startup disabled policy 0 idle none refl

activate_and_install-err_example :
    let r' = (activate_and_install slow disabled policy 0 idle).1 in
    ((r'.state ≡ unlocked)
      ⊎ ((r'.state ≡ locking)
          × (slow.readiness ≡ wait_failed)
          × (readiness_timeout ≡ wait_curtain)))
    × (r'.curtain ≡ idle.curtain)
    × (r'.auth_listener ≡ idle.auth_listener)
    × (r'.auth_socket_path ≡ idle.auth_socket_path)
    × (r'.control_socket_path ≡ idle.control_socket_path)
    × (r'.auth_results ≡ idle.auth_results)
    × (r'.auth_sender ≡ idle.auth_sender)
    × (r'.auth_state ≡ idle.auth_state)
    × (r'.suspend_state ≡ idle.suspend_state)
unfolding activate_and_install activate_lock
activate_and_install-err_example =
    activate_and_install-err slow disabled policy 0 idle readiness_timeout refl refl

abbrev graceful : Shutdown
graceful = record { unlock_requested = true; graceful = gone; force_stopped = true }

abbrev stubborn : Shutdown
stubborn = record { unlock_requested = true; graceful = still_running; force_stopped = false }

deactivate_lock-ok_example :
    let r' = (deactivate_lock graceful policy (some 1) held).1 in
    (r'.state ≡ unlocked)
    × IsFree r'
    × (r'.auth_state ≡ State.new policy)
    × (get_elem? r'.log 0 ≡ some (locked_hint false))
unfolding deactivate_lock
deactivate_lock-ok_example = deactivate_lock-ok graceful policy (some 1) held refl

deactivate_lock-err_example :
    let r' = (deactivate_lock stubborn policy none held).1 in
    (is_some held.curtain ≡ true)
    × (r'.curtain ≡ none)
    × (r'.state ≡ unlocking)
    × (r'.auth_listener ≡ held.auth_listener)
    × (r'.auth_socket_path ≡ held.auth_socket_path)
    × (r'.control_socket_path ≡ held.control_socket_path)
    × (r'.auth_results ≡ held.auth_results)
    × (r'.auth_sender ≡ held.auth_sender)
    × (r'.auth_state ≡ held.auth_state)
unfolding deactivate_lock
deactivate_lock-err_example = deactivate_lock-err stubborn policy none held stop_curtain refl

abbrev reload : Reload
reload = record { loaded = some config; curtain_reloaded = true; now = 0; unix_ms = none }

abbrev answers : ControlAnswers
answers = record { startup = startup; reload = reload; now = 0; seed = 0 }

lock_now-locked_example :
    let r' = (handle_control_connection answers (received (lock_now true false disabled)) idle).1 in
    (r'.state ≡ locked) × IsHeld r'
unfolding handle_control_connection activate_and_install activate_lock
lock_now-locked_example = lock_now-locked answers false disabled idle none refl

-- The daemon starts and is locked by a signal.
first_lock : Reach disabled (init config) (
    handle_lock_signal startup disabled
      (init config).auth_policy
      0
      (choose_background 0 (init config)))
first_lock = next here (lock_signal (init config) startup 0 0)

Reach-IsConsistent_example : IsConsistent (
    handle_lock_signal startup disabled
      (init config).auth_policy
      0
      (choose_background 0 (init config)))
Reach-IsConsistent_example = Reach-IsConsistent disabled config first_lock

abbrev pub delivery : Delivery
delivery = record {
  noted_at = 5;
  started_at = 5;
  admitted_at = 5;
  written = true;
  power_done = true;
}

abbrev checking : Runtime
checking = record held {
  auth_state = record untried { in_flight = true };
  suspend_state = record timer { last_activity_at = some 5 };
  log =
      start_worker (record {
        attempt_id = 1;
        started_at = 5;
        failed_attempts = 1;
        secret = "secret";
        sender = 7;
        latency_report = disabled;
      })
      ∷ [];
}

submitted :
    handle_auth_connection delivery (received (submit_password 1 "secret")) held ≡ (ok tt, checking)
unfolding handle_auth_connection
submitted = refl

submission : Pass disabled held checking
submission = survives (
    auth_connection held checking delivery (received (submit_password 1 "secret")) refl refl
      submitted)

Pass-StaysLocked_example : StaysLocked held checking
unfolding releases submission
Pass-StaysLocked_example = Pass-StaysLocked disabled submission refl refl

Pass-SameThrottle_example : SameThrottle held checking
unfolding releases settles submission
Pass-SameThrottle_example = Pass-SameThrottle disabled submission refl refl refl

-- The curtain is spawned, and waiting for it fails.
abbrev failing : Startup
failing = record startup { readiness = wait_failed }

abbrev left : Runtime
left =
    handle_lock_signal failing disabled (init config).auth_policy 0
      (choose_background 0 (init config))

-- A second lock signal, with a curtain that would start.
abbrev asked_again : Runtime
asked_again = handle_lock_signal startup disabled left.auth_policy 1 (choose_background 0 left)

locked_out : WithoutUnlock disabled left asked_again
unfolding is_unlock
locked_out = then_step begin (lock_signal left startup 0 1) refl

wait_failed-stays_example :
    (asked_again.state ≡ locking) × (is_active asked_again.state ≡ true) × IsFree asked_again
unfolding init
wait_failed-stays_example =
    wait_failed-stays disabled config failing 0 0 here refl refl refl locked_out

workers-serve-le_example :
    workers
      (serve
        ((delivery, received (submit_password 1 "a"))
          ∷ (delivery, received (submit_password 2 "b"))
          ∷ [])
        held).log
    ≤ workers held.log + 1
workers-serve-le_example =
    workers-serve-le
      ((delivery, received (submit_password 1 "a"))
        ∷ (delivery, received (submit_password 2 "b"))
        ∷ [])
      held

abbrev attempt : AuthAttempt
attempt = record {
  attempt_id = 1;
  started_at = 5;
  failed_attempts = 1;
  secret = "secret";
  sender = 7;
  latency_report = disabled;
}

abbrev refused : Runtime
refused = record checking {
  auth_state = record untried { failed_attempts = 1; retry_after = some 750000009 };
}
