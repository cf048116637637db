-- ===== src/Daemon/Control.antt =====
-- Requests on the control socket: `handle_control_connection` of
-- crates/daemon/src/app/events/control.rs, with `build_daemon_status`, `apply_loaded_config` and
-- `reload_config_response` of crates/daemon/src/app/helpers.rs. Of a status the model keeps what is
-- computed; build information and texts that are only copied are left out.
use veila.Prelude.{
  ℕ, Bool, true, false, not, ◌&&◌, Option, none, some, ◌∷◌, ltb, ◌==◌, if◌then◌else◌, is_some,
  nat_eq,
}
use veila.Clock.{Instant, Duration, from_millis, from_secs}
use veila.LockState.{LockState, is_active}
use veila.Background.{FilePath, select_initial_background_path}
use veila.Auth.Policy
use veila.Auth.Policy.{AuthPolicy}
use veila.Auth.State
use veila.Suspend.{set_policy}
use veila.Daemon.Messages.{
  LatencyReportMode, LockLatencyReport, DaemonControlMessage, lock_now, stop, status, health,
  reload_config, LiveReloadStatus, not_active, forwarded, Failure, load_config, forward_reload,
  no_control_socket, ReloadSource, manual, ReloadResult, reload_ok, reload_error,
  DaemonReloadStatus,
}
use veila.Daemon.Runtime.{
  LoadedConfig, Runtime, Result, ok, err, Handler, ◌>>=◌, ◌>>◌, return, fail, emit, modify,
  request_reload, start_prewarm, update_weather, update_battery, update_now_playing,
}
use veila.Daemon.Activation.{Startup, activate_and_install}
use veila.Daemon.Client.{Incoming, unreadable, closed, received}

pub record DaemonStatus : Type 0 where
  pub state : LockState
  pub active_lock : Bool
  pub curtain_running : Bool
  pub live_reload_available : Bool
  pub last_reload_result : Option ReloadResult
  pub last_reload_unix_ms : Option ℕ
  pub config_path : Option FilePath

unfoldable pub build_daemon_status : Runtime → DaemonStatus
build_daemon_status r = record {
  state = r.state;
  active_lock = is_active r.state;
  curtain_running = is_some r.curtain;
  live_reload_available = is_active r.state && is_some r.curtain && is_some r.control_socket_path;
  last_reload_result = r.last_reload_result;
  last_reload_unix_ms = r.last_reload_unix_ms;
  config_path = r.loaded_config.path;
}

pub data DaemonControlResponse : Type 0 where
  accepted : DaemonControlResponse
  locked_response : (already_active : Bool) → Option LockLatencyReport → DaemonControlResponse
  status_response : DaemonStatus → DaemonControlResponse
  health_response : DaemonControlResponse
  reloaded : DaemonReloadStatus → DaemonControlResponse
  error_response : Failure → DaemonControlResponse

-- `suspend_delay_seconds(config).map(Duration::from_secs)`
abbrev pub suspend_delay : Option ℕ → Option Duration
suspend_delay none = none
suspend_delay (some seconds) = if ltb 0 seconds then some (from_secs seconds) else none

abbrev pub policy_of : LoadedConfig → AuthPolicy
policy_of c = Policy.new (from_millis c.auth_backoff_base_ms) (from_secs c.auth_backoff_max_seconds)

-- What the outside answers to a reload: the loaded file, whether the curtain took the request, and
-- the times that are read.
pub record Reload : Type 0 where
  pub loaded : Option LoadedConfig
  pub curtain_reloaded : Bool
  pub now : Instant
  pub unix_ms : Option ℕ

-- The assignments of `apply_loaded_config` before it turns to the curtain.
install_config : LoadedConfig → Instant → Runtime → Runtime
unfolding set_policy State.new
install_config c now r =
    let policy = policy_of c in
    record r {
      loaded_config = c;
      auth_policy = policy;
      suspend_state =
          set_policy r.suspend_state (suspend_delay c.suspend_seconds) c.suspend_only_on_battery
            c.skip_suspend_while_media_playing now (is_active r.state);
      auth_state = if not (is_active r.state) then State.new policy else r.auth_state;
      log =
          update_now_playing
          ∷ update_battery
          ∷ update_weather
          ∷ (if not (r.loaded_config.prewarm_inputs == c.prewarm_inputs)
              then start_prewarm ∷ r.log
              else r.log);
    }

forward_to : Option FilePath → Bool → Handler LiveReloadStatus
forward_to none _ = fail no_control_socket
forward_to (some path) true = do emit (request_reload path); return forwarded
forward_to (some path) false = do emit (request_reload path); fail forward_reload

live_reload : Reload → Handler LiveReloadStatus
unfolding forward_to
live_reload a r =
    if not (is_active r.state)
    then (ok not_active, r)
    else forward_to r.control_socket_path a.curtain_reloaded r

unfoldable pub apply_loaded_config :
    Reload → LoadedConfig → ReloadSource → Handler DaemonReloadStatus
unfolding install_config live_reload
apply_loaded_config a c source = do
  modify (install_config c a.now)
  live ← live_reload a
  modify (λ r. record r {
    last_reload_result = some (reload_ok source);
    last_reload_unix_ms = a.unix_ms;
  })
  λ r. (
    ok (record {
      config_path = r.loaded_config.path;
      active_lock = is_active r.state;
      reload_source = source;
      live_reload = live;
    }),
    r,
  )

unfoldable pub note_reload_error : Reload → ReloadSource → Failure → Runtime → Runtime
note_reload_error a source e r = record r {
  last_reload_result = some (reload_error source e);
  last_reload_unix_ms = a.unix_ms;
}

settle_reload : Reload → Result DaemonReloadStatus × Runtime → DaemonControlResponse × Runtime
unfolding note_reload_error
settle_reload a (ok s, r) = (reloaded s, r)
settle_reload a (err e, r) = (error_response e, note_reload_error a manual e r)

reload_with : Option LoadedConfig → Reload → Runtime → DaemonControlResponse × Runtime
unfolding settle_reload apply_loaded_config
reload_with none a r = (error_response load_config, note_reload_error a manual load_config r)
reload_with (some c) a r = settle_reload a (apply_loaded_config a c manual r)

unfoldable pub reload_config_response : Reload → Runtime → DaemonControlResponse × Runtime
unfolding reload_with
reload_config_response a r = reload_with a.loaded a r

settle_auto_reload : Reload → ReloadSource → Result DaemonReloadStatus × Runtime → Runtime
unfolding note_reload_error
settle_auto_reload a source (ok s, r) = r
settle_auto_reload a source (err e, r) = note_reload_error a source e r

-- The reload that the daemon's tick makes when the watcher reports a change (`run` of
-- crates/daemon/src/app/mod.rs), once the new file is loaded and is to be applied.
unfoldable pub auto_reload : Reload → LoadedConfig → ReloadSource → Runtime → Runtime
unfolding settle_auto_reload apply_loaded_config
auto_reload a c source r = settle_auto_reload a source (apply_loaded_config a c source r)

-- What one request gets from outside; `seed` is the clock that the wallpaper shuffle reads.
pub record ControlAnswers : Type 0 where
  pub startup : Startup
  pub reload : Reload
  pub now : Instant
  pub seed : ℕ

answer_lock : Bool → Result (Option LockLatencyReport) × Runtime → DaemonControlResponse × Runtime
answer_lock true (ok report, r) = (locked_response false report, r)
answer_lock false (ok report, r) = (accepted, r)
answer_lock true (err e, r) = (error_response e, r)
answer_lock false (err e, r) = (accepted, r)

unfoldable pub choose_background : ℕ → Runtime → Runtime
choose_background seed r = record r {
  background_selection =
      (select_initial_background_path r.loaded_config.background r.background_selection seed).0;
}

lock_inactive :
    ControlAnswers → Bool → LatencyReportMode → Runtime → DaemonControlResponse × Runtime
unfolding answer_lock choose_background
lock_inactive a wait_ready mode r =
    answer_lock wait_ready
      (activate_and_install a.startup mode r.auth_policy a.now (choose_background a.seed r))

respond : ControlAnswers → DaemonControlMessage → Runtime → DaemonControlResponse × Runtime
unfolding lock_inactive reload_config_response build_daemon_status
respond a (lock_now wait_ready force_emergency_ui mode) r =
    let r' = record r { active_latency_report = mode } in
    if not (is_active r.state)
    then lock_inactive a wait_ready mode r'
    else (if wait_ready then locked_response true none else accepted, r')
respond a stop r = (accepted, r)
respond a status r = (status_response (build_daemon_status r), r)
respond a health r = (health_response, r)
respond a reload_config r = reload_config_response a.reload r

abbrev pub is_stop : DaemonControlMessage → Bool
is_stop stop = true
is_stop _ = false

-- The response, if there was a request, and whether the daemon is to stop. A response that cannot
-- be written is only logged.
unfoldable pub handle_control_connection :
    ControlAnswers
    → Incoming DaemonControlMessage
    → Runtime
    → Result (Option DaemonControlResponse × Bool) × Runtime
unfolding respond
handle_control_connection a (unreadable e) r = (err e, r)
handle_control_connection a closed r = (ok (none, false), r)
handle_control_connection a (received m) r =
    let (response, r') = respond a m r in (ok (some response, is_stop m), r')
