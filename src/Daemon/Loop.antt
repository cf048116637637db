-- ===== src/Daemon/Loop.antt =====
-- The daemon's event loop, `run` of crates/daemon/src/app/mod.rs, as a step relation: the
-- environment chooses the event and the answers, and each arm of `select!` is enabled as its guard
-- says. A step is one pass that the loop survives; an error that `?` passes on, a request to stop and
-- the signals SIGINT and SIGTERM end it, and are exits. After a request to stop and the signals the
-- daemon shuts down. Log lines and messages that only inform the curtain are no part of a step.
use veila.Prelude.{ℕ, ◌≡◌, ap, subst, true, false, Option, none, some, [], arith, is_some, nat_eq}
use veila.Clock.{Instant}
use veila.LockState.{unlocked, is_active}
use veila.Auth.State
use veila.Suspend
use veila.Suspend.Ticks.{suspend_check}
use veila.Daemon.Ticks.{
  TickReload, no_reload, load_failed, apply_config, TickReading, reading_of, reload_on_tick, tick,
}
use veila.Daemon.Messages.{
  LatencyReportMode, disabled, ClientMessage, DaemonControlMessage, Failure,
}
use veila.Daemon.Runtime.{LoadedConfig, Runtime, ok, err}
use veila.Daemon.Activation.{Startup}
use veila.Daemon.Deactivation.{Shutdown}
use veila.Daemon.Client.{AuthResult, Delivery, Incoming, handle_auth_connection}
use veila.Daemon.Signals.{
  handle_lock_signal, handle_unlock_signal, handle_curtain_exit, handle_auth_result,
  shutdown_runtime,
}
use veila.Daemon.Control.{
  ControlAnswers, DaemonControlResponse, choose_background, handle_control_connection, policy_of,
  suspend_delay, note_reload_error,
}
use veila.Daemon.Consistency.{
  IsConsistent, handle_lock_signal-IsConsistent, handle_curtain_exit-IsConsistent,
  handle_unlock_signal-IsConsistent, handle_auth_result-IsConsistent,
  handle_auth_connection-IsConsistent, auto_reload-IsConsistent,
  handle_control_connection-IsConsistent,
}

-- `AppRuntime::new`
unfoldable pub init : LoadedConfig → Runtime
unfolding State.new Suspend.new
init c = record {
  loaded_config = c;
  last_reload_result = none;
  last_reload_unix_ms = none;
  auth_policy = policy_of c;
  state = unlocked;
  curtain = none;
  auth_listener = none;
  auth_socket_path = none;
  control_socket_path = none;
  auth_results = none;
  auth_sender = none;
  auth_state = State.new (policy_of c);
  active_latency_report = disabled;
  background_selection = none;
  suspend_state =
      Suspend.new (suspend_delay c.suspend_seconds) c.suspend_only_on_battery
        c.skip_suspend_while_media_playing;
  log = [];
}

-- `mode` is the latency report that the daemon's options ask for.
module _ (mode : LatencyReportMode) where
  pub data Step : Runtime → Runtime → Type 0 where
    lock_signal :
        (r : Runtime) (x : Startup) (seed : ℕ) (now : Instant)
        → Step r (handle_lock_signal x mode r.auth_policy now (choose_background seed r))
    unlock_signal : (r : Runtime) (y : Shutdown) → Step r (handle_unlock_signal y r.auth_policy r)
    curtain_exit :
        (r : Runtime) (x : Startup) (seed : ℕ) (now : Instant)
        → is_some r.curtain ≡ true
        → Step r (handle_curtain_exit x mode r.auth_policy now (choose_background seed r))
    auth_connection :
        (r r' : Runtime) (d : Delivery) (m : Incoming ClientMessage)
        → is_active r.state ≡ true
        → is_some r.auth_listener ≡ true
        → handle_auth_connection d m r ≡ (ok tt, r')
        → Step r r'
    auth_result :
        (r r' : Runtime) (y : Shutdown) (result : AuthResult) (now : Instant)
        → is_some r.auth_results ≡ true
        → handle_auth_result y r.auth_policy result now r ≡ some r'
        → Step r r'
    control :
        (r r' : Runtime) (a : ControlAnswers) (m : Incoming DaemonControlMessage)
        (response : Option DaemonControlResponse)
        → handle_control_connection a m r ≡ (ok (response, false), r')
        → Step r r'
    ticked : (r : Runtime) (t : TickReading) → Step r (tick t r).0

  -- The last pass of the loop, with the shutdown after it. An error ends `run` at once.
  pub data Exit : Runtime → Runtime → Type 0 where
    terminated : (r : Runtime) (y : Shutdown) → Exit r (shutdown_runtime y r.auth_policy r)
    stopped :
        (r r' : Runtime) (a : ControlAnswers) (m : Incoming DaemonControlMessage)
        (response : Option DaemonControlResponse) (y : Shutdown)
        → handle_control_connection a m r ≡ (ok (response, true), r')
        → Exit r (shutdown_runtime y r'.auth_policy r')
    failed : (r : Runtime) → Exit r r
    auth_failed :
        (r r' : Runtime) (d : Delivery) (m : Incoming ClientMessage) (reason : Failure)
        → is_active r.state ≡ true
        → is_some r.auth_listener ≡ true
        → handle_auth_connection d m r ≡ (err reason, r')
        → Exit r r'
    control_failed :
        (r r' : Runtime) (a : ControlAnswers) (m : Incoming DaemonControlMessage) (reason : Failure)
        → handle_control_connection a m r ≡ (err reason, r')
        → Exit r r'

  -- Any pass of the loop.
  pub data Pass : Runtime → Runtime → Type 0 where
    survives : {r r' : Runtime} → Step r r' → Pass r r'
    ends : {r r' : Runtime} → Exit r r' → Pass r r'

  pub data Reach (start : Runtime) : Runtime → Type 0 where
    here : Reach start start
    next : {r r' : Runtime} → Reach start r → Step r r' → Reach start r'

  choose_background-IsConsistent :
      (seed : ℕ) (r : Runtime) → IsConsistent r → IsConsistent (choose_background seed r)
  unfolding choose_background
  choose_background-IsConsistent seed r c = ground arith

  reload_on_tick-IsConsistent :
      (l : TickReload) (r : Runtime) → IsConsistent r → IsConsistent (reload_on_tick l r)
  unfolding reload_on_tick note_reload_error
  reload_on_tick-IsConsistent no_reload r c = c
  reload_on_tick-IsConsistent (load_failed a source) r c = ground arith
  reload_on_tick-IsConsistent (apply_config a c' source) r c =
      auto_reload-IsConsistent a c' source r c

  tick-IsConsistent : (t : TickReading) (r : Runtime) → IsConsistent r → IsConsistent (tick t r).0
  unfolding tick
  tick-IsConsistent t r c =
      let checked = suspend_check (r.suspend_state) (reading_of t r) in
      reload_on_tick-IsConsistent (t.reload) (record r { suspend_state = checked.0 }) (ground arith)

  Step-IsConsistent : {r r' : Runtime} → Step r r' → IsConsistent r → IsConsistent r'
  Step-IsConsistent (lock_signal r x seed now) c =
      handle_lock_signal-IsConsistent x mode r.auth_policy now (choose_background seed r)
        (choose_background-IsConsistent seed r c)
  Step-IsConsistent (unlock_signal r y) c = handle_unlock_signal-IsConsistent y r.auth_policy r c
  Step-IsConsistent (curtain_exit r x seed now h) c =
      handle_curtain_exit-IsConsistent x mode r.auth_policy now (choose_background seed r)
        (choose_background-IsConsistent seed r c)
  Step-IsConsistent (auth_connection r r' d m a l e) c =
      subst IsConsistent (ap (λ p. p.1) e) (handle_auth_connection-IsConsistent d m r c)
  Step-IsConsistent (auth_result r r' y result now h e) c =
      handle_auth_result-IsConsistent y r.auth_policy result now r c e
  Step-IsConsistent (control r r' a m response e) c =
      subst IsConsistent (ap (λ p. p.1) e) (handle_control_connection-IsConsistent a m r c)
  Step-IsConsistent (ticked r t) c = tick-IsConsistent t r c

  Reach-keeps : {start r : Runtime} → IsConsistent start → Reach start r → IsConsistent r
  Reach-keeps h here = h
  Reach-keeps h (next p st) = Step-IsConsistent st (Reach-keeps h p)

  init-IsConsistent : (c : LoadedConfig) → IsConsistent (init c)
  unfolding init
  init-IsConsistent c = ground arith

  -- Whatever events a freshly started daemon has handled, in whatever order and with whatever
  -- answers from outside: in the state `locked` the curtain runs and all its sockets and channels
  -- are there, in `unlocked` and `locking` nothing of a lock is held, and in `unlocking` the curtain
  -- is gone.
  pub Reach-IsConsistent : (c : LoadedConfig) {r : Runtime} → Reach (init c) r → IsConsistent r
  Reach-IsConsistent c p = Reach-keeps (init-IsConsistent c) p
