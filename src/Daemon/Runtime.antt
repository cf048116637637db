-- ===== src/Daemon/Runtime.antt =====
-- The state that the daemon's handlers share, `AppRuntime` and `RuntimeSlots` of
-- crates/daemon/src/app/state.rs, without the handles of its background services; the helpers of
-- crates/daemon/src/app/runtime/state.rs; and the monad of the handlers. Processes, sockets,
-- channels and paths are numbers. `log` is no field of the program: it lists what was done
-- outside, the newest first.
use veila.Prelude.{ℕ, Bool, true, false, Option, none, some, List, ◌∷◌, nat_eq}
use Prim.Native.String.{String}
use veila.LockState.{LockState}
use veila.Background.{FilePath, SelectionState, BackgroundConfig}
use veila.Auth.Policy.{AuthPolicy}
use veila.Auth.State
use veila.Auth.State.{AuthState}
use veila.Suspend.{LockedSuspendState}
use veila.Clock.{Instant}
use veila.Daemon.Messages.{
  PowerAction, LatencyReportMode, DaemonMessage, LockLatencyReport, Failure, ReloadResult,
}

abbrev pub Child : Type 0
Child = ℕ

abbrev pub Listener : Type 0
Listener = ℕ

abbrev pub Channel : Type 0
Channel = ℕ

-- What the handlers read of `LockConfig` (crates/common/src/config/lock.rs) and of the rest of the
-- configuration; `prewarm_inputs` stands for what decides whether wallpapers are prepared anew.
pub record LoadedConfig : Type 0 where
  pub path : Option FilePath
  pub auth_backoff_base_ms : ℕ
  pub auth_backoff_max_seconds : ℕ
  pub suspend_seconds : Option ℕ
  pub suspend_only_on_battery : Bool
  pub skip_suspend_while_media_playing : Bool
  pub background : BackgroundConfig
  pub prewarm_inputs : ℕ

-- An authentication attempt that was handed to a worker.
pub record AuthAttempt : Type 0 where
  pub attempt_id : ℕ
  pub started_at : Instant
  pub failed_attempts : ℕ
  pub secret : String
  pub sender : Channel
  pub latency_report : LatencyReportMode

pub data Effect : Type 0 where
  remove_file : FilePath → Effect
  locked_hint : Bool → Effect
  force_stop : Child → Effect
  request_unlock : FilePath → Option ℕ → Effect
  request_reload : FilePath → Effect
  start_worker : AuthAttempt → Effect
  reply : DaemonMessage → Effect
  request_power : PowerAction → Effect
  start_prewarm update_weather update_battery update_now_playing : Effect

pub record Runtime : Type 0 where
  pub loaded_config : LoadedConfig
  pub last_reload_result : Option ReloadResult
  pub last_reload_unix_ms : Option ℕ
  pub auth_policy : AuthPolicy
  pub state : LockState
  pub curtain : Option Child
  pub auth_listener : Option Listener
  pub auth_socket_path : Option FilePath
  pub control_socket_path : Option FilePath
  pub auth_results : Option Channel
  pub auth_sender : Option Channel
  pub auth_state : AuthState
  pub active_latency_report : LatencyReportMode
  pub background_selection : Option SelectionState
  pub suspend_state : LockedSuspendState
  pub log : List Effect

pub data Result {ℓ} (A : Type ℓ) : Type ℓ where
  ok : A → Result A
  err : Failure → Result A

-- A handler may fail; what it changed before stays changed.
abbrev pub Handler : Type 0 → Type 0
Handler A = Runtime → Result A × Runtime

abbrev pub continue : {A B : Type 0} → Result A → (A → Handler B) → Handler B
continue (ok a) f r = f a r
continue (err e) f r = (err e, r)

infixl 5 ◌>>=◌ ◌>>◌
abbrev pub ◌>>=◌ : {A B : Type 0} → Handler A → (A → Handler B) → Handler B
◌>>=◌ m f r = let (a, r') = m r in continue a f r'

abbrev pub ◌>>◌ : {A B : Type 0} → Handler A → Handler B → Handler B
m >> n = m >>= λ _. n

abbrev pub return : {A : Type 0} → A → Handler A
return a r = (ok a, r)

abbrev pub fail : {A : Type 0} → Failure → Handler A
fail e r = (err e, r)

-- An answer from outside, `?` on it.
abbrev pub answer : {A : Type 0} → Option A → Failure → Handler A
answer none e r = (err e, r)
answer (some a) e r = (ok a, r)

-- A call that succeeds or fails, `?` on it.
abbrev pub succeeded : Bool → Failure → Handler (Unit {0})
succeeded true e r = (ok tt, r)
succeeded false e r = (err e, r)

abbrev pub emit : Effect → Handler (Unit {0})
emit e r = (ok tt, record r { log = e ∷ r.log })

abbrev pub modify : (Runtime → Runtime) → Handler (Unit {0})
modify f r = (ok tt, f r)

abbrev pub set_state : LockState → Handler (Unit {0})
set_state s r = (ok tt, record r { state = s })

-- `update_locked_hint`; a failure is only logged.
abbrev pub update_locked_hint : Bool → Handler (Unit {0})
update_locked_hint b = emit (locked_hint b)

pub record LockActivation : Type 0 where
  pub curtain : Child
  pub auth_listener : Listener
  pub auth_socket_path : FilePath
  pub control_socket_path : FilePath
  pub auth_results : Channel
  pub auth_sender : Channel
  pub latency_report : Option LockLatencyReport

unfoldable pub install_activation : LockActivation → Runtime → Runtime
install_activation a r = record r {
  curtain = some a.curtain;
  auth_listener = some a.auth_listener;
  auth_socket_path = some a.auth_socket_path;
  control_socket_path = some a.control_socket_path;
  auth_results = some a.auth_results;
  auth_sender = some a.auth_sender;
}

abbrev removal : Option FilePath → List Effect → List Effect
removal none log = log
removal (some p) log = remove_file p ∷ log

unfoldable pub reset_runtime : AuthPolicy → Runtime → Runtime
unfolding State.new
reset_runtime auth_policy r = record r {
  auth_listener = none;
  auth_results = none;
  auth_sender = none;
  auth_socket_path = none;
  control_socket_path = none;
  auth_state = State.new auth_policy;
  log = removal r.control_socket_path (removal r.auth_socket_path r.log);
}
