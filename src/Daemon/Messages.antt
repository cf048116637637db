-- ===== src/Daemon/Messages.antt =====
-- The messages between client, daemon and curtain: crates/common/src/ipc.rs and
-- crates/common/src/power.rs.
use veila.Prelude.{ℕ, Bool, true, false, Option, nat_eq}
use Prim.Native.String.{String}
use veila.Background.{FilePath}

pub data PowerAction : Type 0 where
  suspend reboot poweroff : PowerAction

pub data LatencyReportMode : Type 0 where
  disabled basic verbose : LatencyReportMode

abbrev pub is_enabled : LatencyReportMode → Bool
is_enabled disabled = false
is_enabled basic = true
is_enabled verbose = true

abbrev pub is_verbose : LatencyReportMode → Bool
is_verbose disabled = false
is_verbose basic = false
is_verbose verbose = true

pub data ClientMessage : Type 0 where
  submit_password : (attempt_id : ℕ) (secret : String) → ClientMessage
  cancel_authentication : ClientMessage
  activity : ClientMessage
  request_power_action : PowerAction → ClientMessage

pub data DaemonMessage : Type 0 where
  authentication_accepted : (attempt_id : ℕ) → DaemonMessage
  authentication_rejected :
      (attempt_id : ℕ) (retry_after_ms failed_attempts : Option ℕ) → DaemonMessage
  authentication_busy : (attempt_id : ℕ) → DaemonMessage

pub data DaemonControlMessage : Type 0 where
  lock_now :
      (wait_ready force_emergency_ui : Bool) (latency_report : LatencyReportMode)
      → DaemonControlMessage
  stop status health reload_config : DaemonControlMessage

-- The figures of a report are measured times that no code reads: a report is a number, and beside
-- it the curtain's own report, if one came.
pub record LockLatencyReport : Type 0 where
  pub figures : ℕ
  pub curtain : Option ℕ

pub data LiveReloadStatus : Type 0 where
  not_active forwarded : LiveReloadStatus

-- Why a request failed.
pub data Failure : Type 0 where
  socket_setup spawn_curtain wait_curtain curtain_readiness readiness_timeout curtain_exited :
      Failure
  stop_curtain auth_channel power_action write_reply : Failure
  load_config forward_reload no_control_socket : Failure
  unreadable_line invalid_message : Failure

pub data ReloadSource : Type 0 where
  manual config_change theme_change include_change wallpaper_change : ReloadSource

-- `ok:{source}` and `error:{source}:{reason}`
pub data ReloadResult : Type 0 where
  reload_ok : ReloadSource → ReloadResult
  reload_error : ReloadSource → Failure → ReloadResult

pub record DaemonReloadStatus : Type 0 where
  pub config_path : Option FilePath
  pub active_lock : Bool
  pub reload_source : ReloadSource
  pub live_reload : LiveReloadStatus
