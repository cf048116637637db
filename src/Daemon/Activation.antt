-- ===== src/Daemon/Activation.antt =====
-- Locking the session: `activate_lock` of crates/daemon/src/app/runtime/lock.rs and
-- `activate_and_install` of crates/daemon/src/app/helpers.rs. What the calls to the operating system
-- answer is the argument `Startup`.
use veila.Prelude.{ℕ, Bool, true, false, Option, none, some, if◌then◌else◌, nat_eq}
use veila.Clock.{Instant}
use veila.LockState.{unlocked, locking, locked}
use veila.Background.{FilePath}
use veila.Auth.Policy.{AuthPolicy}
use veila.Auth.State
use veila.Suspend.{arm}
use veila.Daemon.Messages.{
  LatencyReportMode, is_enabled, LockLatencyReport, Failure, socket_setup, spawn_curtain,
  wait_curtain, curtain_readiness, readiness_timeout, curtain_exited, stop_curtain,
}
use veila.Daemon.Runtime.{
  Child, Listener, Channel, Handler, ◌>>=◌, ◌>>◌, return, fail, answer, succeeded, emit, modify,
  set_state, remove_file, force_stop, update_locked_hint, LockActivation, install_activation,
}

-- How the wait for the curtain ends: a connection on the notify socket, an error of `accept`, five
-- seconds without either, the exit of the curtain, or an error of `wait`.
pub data Readiness : Type 0 where
  connected : Readiness
  accept_failed : Readiness
  timed_out : Readiness
  exited : Readiness
  wait_failed : Readiness

-- `none` and `false` are errors. `curtain_report` is what `read_curtain_latency_report` returns,
-- `figures` the measured times.
pub record Startup : Type 0 where
  pub notify_socket_path : Option FilePath
  pub auth_socket_path : Option FilePath
  pub control_socket_path : Option FilePath
  pub notify_listener : Option Listener
  pub auth_listener : Option Listener
  pub spawned : Option Child
  pub channel : Channel
  pub readiness : Readiness
  pub curtain_report : Option ℕ
  pub figures : ℕ
  pub force_stopped : Bool

-- The sockets of a lock that is being set up.
pub record Sockets : Type 0 where
  pub notify_path : FilePath
  pub auth_path : FilePath
  pub control_path : FilePath
  pub listener : Listener

set_up_sockets : Startup → Handler Sockets
set_up_sockets x = do
  notify_path ← answer x.notify_socket_path socket_setup
  auth_path ← answer x.auth_socket_path socket_setup
  control_path ← answer x.control_socket_path socket_setup
  answer x.notify_listener socket_setup
  listener ← answer x.auth_listener socket_setup
  return (record {
    notify_path = notify_path;
    auth_path = auth_path;
    control_path = control_path;
    listener = listener;
  })

spawn_or_clean_up : Option Child → Sockets → Handler Child
spawn_or_clean_up (some child) k = return child
spawn_or_clean_up none k = do
  emit (remove_file k.notify_path)
  emit (remove_file k.auth_path)
  emit (remove_file k.control_path)
  set_state unlocked
  fail spawn_curtain

-- A curtain that did not become ready is stopped and the lock given up.
give_up : Startup → Sockets → Child → Failure → Handler LockActivation
give_up x k child reason = do
  set_state unlocked
  emit (remove_file k.auth_path)
  emit (remove_file k.control_path)
  emit (force_stop child)
  succeeded x.force_stopped stop_curtain
  update_locked_hint false
  fail reason

report_of : LatencyReportMode → Startup → Option LockLatencyReport
report_of mode x =
    if is_enabled mode
    then some (record { figures = x.figures; curtain = x.curtain_report })
    else none

-- The wait and what follows; `remove_file` of the notify socket comes after the wait.
finish_activation :
    Readiness → Startup → LatencyReportMode → Sockets → Child → Handler LockActivation
unfolding give_up report_of
finish_activation wait_failed x mode k child = fail wait_curtain
finish_activation connected x mode k child = do
  emit (remove_file k.notify_path)
  set_state locked
  update_locked_hint true
  return (record {
    curtain = child;
    auth_listener = k.listener;
    auth_socket_path = k.auth_path;
    control_socket_path = k.control_path;
    auth_results = x.channel;
    auth_sender = x.channel;
    latency_report = report_of mode x;
  })
finish_activation accept_failed x mode k child = do
  emit (remove_file k.notify_path)
  give_up x k child curtain_readiness
finish_activation timed_out x mode k child = do
  emit (remove_file k.notify_path)
  give_up x k child readiness_timeout
finish_activation exited x mode k child = do
  emit (remove_file k.notify_path)
  set_state unlocked
  emit (remove_file k.auth_path)
  emit (remove_file k.control_path)
  update_locked_hint false
  fail curtain_exited

unfoldable pub activate_lock : Startup → LatencyReportMode → Handler LockActivation
unfolding set_up_sockets spawn_or_clean_up finish_activation
activate_lock x mode = do
  k ← set_up_sockets x
  child ← spawn_or_clean_up x.spawned k
  set_state locking
  finish_activation x.readiness x mode k child

-- `now` is the time at which the suspend timer is armed. `activate_and_log` adds only log lines.
unfoldable pub activate_and_install :
    Startup → LatencyReportMode → AuthPolicy → Instant → Handler (Option LockLatencyReport)
unfolding install_activation State.new arm
activate_and_install x mode auth_policy now = do
  activation ← activate_lock x mode
  modify (install_activation activation)
  modify (λ r. record r { auth_state = State.new auth_policy })
  modify (λ r. record r { suspend_state = arm r.suspend_state now })
  return activation.latency_report
