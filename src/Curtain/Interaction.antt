-- ===== src/Curtain/Interaction.antt =====
-- How the curtain turns input into attempts, and replies into the state of its shell:
-- crates/curtain/src/state/interaction and `run_attempt` of crates/curtain/src/ipc/auth.rs. Drawing is
-- left out. A sum with an `Instant` is written without its overflow, after centuries.
use veila.Prelude.{
  ℕ, Bool, true, false, not, ◌&&◌, Option, none, some, List, [], ◌∷◌, if◌then◌else◌, is_empty,
  nat_eq,
}
use mathlib.Core.Option
use veila.Clock.{Instant, from_millis, saturating_add_u64}
use veila.Background.{FilePath}
use veila.Daemon.Messages.{PowerAction, DaemonMessage}
use veila.Daemon.Client.{Incoming, unreadable, closed, received}
use veila.Shell.{Char, ShellState, ShellKey, backspace, ShellAction, nothing, submit, power}
use veila.Shell.Keys.{handle_key, authentication_busy, authentication_rejected}
use veila.Shell.Pointer.{
  Hit, ClickTimes, handle_pointer_press, handle_pointer_release, take_pointer_action,
}
use veila.Curtain.ScreenOff.{ScreenOffState}
use veila.Curtain.KeyRepeat
use veila.Curtain.KeyRepeat.{KeyRepeatState, consume_if_due}
use veila.Curtain.Resume.{ResumeInputState}

-- What the curtain starts in threads of their own.
pub data Effect : Type 0 where
  submit_password : (socket_path : FilePath) (attempt_id : ℕ) (secret : List Char) → Effect
  notify_activity : (socket_path : FilePath) → Effect
  request_power_action : (socket_path : FilePath) (action : PowerAction) → Effect

-- The fields of `CurtainApp` that input reads and writes, and what was started, the last first.
pub record CurtainApp : Type 0 where
  pub ui_shell : ShellState
  pub daemon_socket : Option FilePath
  pub allow_empty_password : Bool
  pub auth_in_flight : Bool
  pub next_auth_attempt_id : ℕ
  pub has_keyboard_focus : Bool
  pub ctrl_active : Bool
  pub backspace_repeat : Option KeyRepeatState
  pub screen_off : ScreenOffState
  pub resume_input : ResumeInputState
  pub wake_key_release_pending : Bool
  pub exit_requested : Bool
  pub started : List Effect

-- The times that a key reads, in the shell and for a rejection.
pub record KeyTimes : Type 0 where
  pub now : Instant
  pub started_at : Instant
  pub rejected_at : Instant
  pub shown_at : Instant

unfoldable pub start : Effect → CurtainApp → CurtainApp
start e app = record app { started = e ∷ app.started }

-- `submit_password`, or a rejection if there is no socket.
unfoldable pub send_secret : Option FilePath → List Char → KeyTimes → CurtainApp → CurtainApp
unfolding start
send_secret none secret t app = record app {
  ui_shell = authentication_rejected none none t.rejected_at t.shown_at app.ui_shell;
}
send_secret (some socket_path) secret t app =
    start (submit_password socket_path app.next_auth_attempt_id secret) (record app {
      next_auth_attempt_id = saturating_add_u64 app.next_auth_attempt_id 1;
      auth_in_flight = true;
    })

unfoldable pub act_on_key : ShellAction → KeyTimes → CurtainApp → CurtainApp
unfolding send_secret
act_on_key nothing t app = app
act_on_key (power _) t app = app
act_on_key (submit secret) t app =
    if not app.allow_empty_password && is_empty secret
    then record app { ui_shell = authentication_busy app.ui_shell }
    else send_secret app.daemon_socket secret t app

unfoldable pub handle_shell_key : ShellKey → KeyTimes → CurtainApp → CurtainApp
unfolding act_on_key
handle_shell_key key t app =
    if app.auth_in_flight
    then app
    else let (shell, action) = handle_key key t.now t.started_at app.ui_shell in
      act_on_key action t (record app { ui_shell = shell })

-- `hit` is none if the surface has no size yet.
unfoldable pub handle_shell_pointer_press : Option Hit → Instant → CurtainApp → CurtainApp
handle_shell_pointer_press none cleared_at app = app
handle_shell_pointer_press (some hit) cleared_at app =
    if app.auth_in_flight
    then app
    else record app { ui_shell = (handle_pointer_press hit cleared_at app.ui_shell).0 }

unfoldable pub request_power : ShellAction → Option FilePath → CurtainApp → CurtainApp
unfolding start
request_power (power action) (some socket_path) app =
    start (request_power_action socket_path action) app
request_power _ _ app = app

unfoldable pub handle_shell_pointer_release : Option Hit → ClickTimes → CurtainApp → CurtainApp
unfolding request_power
handle_shell_pointer_release none t app = app
handle_shell_pointer_release (some hit) t app =
    if app.auth_in_flight
    then app
    else let (shell, action) = take_pointer_action (handle_pointer_release hit t app.ui_shell).0 in
      request_power action app.daemon_socket (record app { ui_shell = shell })

unfoldable pub start_backspace_repeat : Instant → CurtainApp → Option CurtainApp
start_backspace_repeat now app =
    Option.map (λ repeat. record app { backspace_repeat = some repeat })
      (KeyRepeat.new now (from_millis 300) (from_millis 32))

unfoldable pub repeated : KeyTimes → Option (KeyRepeatState × Bool) → CurtainApp → Option CurtainApp
unfolding handle_shell_key
repeated t none app = none
repeated t (some (repeat, fired)) app =
    let q = record app { backspace_repeat = some repeat } in
    some (if fired then handle_shell_key backspace t q else q)

unfoldable pub repeat_at :
    Option KeyRepeatState → Instant → KeyTimes → CurtainApp → Option CurtainApp
unfolding repeated
repeat_at none now t app = some app
repeat_at (some repeat) now t app = repeated t (consume_if_due now repeat) app

unfoldable pub advance_input_repeat : Instant → KeyTimes → CurtainApp → Option CurtainApp
unfolding repeat_at
advance_input_repeat now t app = repeat_at app.backspace_repeat now t app

pub data AuthEvent : Type 0 where
  accepted : (attempt_id : ℕ) → AuthEvent
  rejected : (attempt_id : ℕ) (retry_after_ms failed_attempts : Option ℕ) → AuthEvent
  busy : (attempt_id : ℕ) → AuthEvent

-- The event that an answer of the daemon becomes.
unfoldable pub event_of : DaemonMessage → AuthEvent
event_of (DaemonMessage.authentication_accepted attempt_id) = accepted attempt_id
event_of (DaemonMessage.authentication_rejected attempt_id retry_after_ms failed_attempts) =
    rejected attempt_id retry_after_ms failed_attempts
event_of (DaemonMessage.authentication_busy attempt_id) = busy attempt_id

-- `run_attempt` in its thread: whether the daemon could be reached and was sent the request, and what
-- came back. The errors are only logged.
unfoldable pub run_attempt : Bool → Incoming DaemonMessage → Option AuthEvent
unfolding event_of
run_attempt false answer = none
run_attempt true (unreadable _) = none
run_attempt true closed = none
run_attempt true (received m) = some (event_of m)

-- The event with the times that are read when it is handled.
unfoldable pub handle_auth_event : AuthEvent → KeyTimes → CurtainApp → CurtainApp
handle_auth_event (accepted attempt_id) t app = app
handle_auth_event (rejected attempt_id retry_after_ms failed_attempts) t app = record app {
  auth_in_flight = false;
  ui_shell =
      authentication_rejected retry_after_ms failed_attempts t.rejected_at t.shown_at app.ui_shell;
}
handle_auth_event (busy attempt_id) t app = record app {
  auth_in_flight = false;
  ui_shell = authentication_busy app.ui_shell;
}

unfoldable pub drain_auth_events : List (AuthEvent × KeyTimes) → CurtainApp → CurtainApp
unfolding handle_auth_event
drain_auth_events [] app = app
drain_auth_events ((event, t) ∷ events) app =
    drain_auth_events events (handle_auth_event event t app)
