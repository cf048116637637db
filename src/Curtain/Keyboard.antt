-- ===== src/Curtain/Keyboard.antt =====
-- The keyboard's events and the messages of the daemon that stand before them:
-- `KeyboardHandler` of crates/curtain/src/wayland/handlers/input.rs, `drain_control_events` of
-- crates/curtain/src/state/interaction/control.rs, and what `reload_config` of
-- crates/curtain/src/reload.rs changes in the state of the input.
use veila.Prelude.{
  ℕ, Bool, true, false, not, Option, none, some, List, [], ◌∷◌, ltb, if◌then◌else◌, nat_eq,
}
use mathlib.Core.Option
use veila.Clock.{Instant, Duration, from_secs, from_millis}
use veila.Background.{FilePath}
use veila.Shell.{
  Char, ShellState, character, backspace, escape, clear, select_all, enter, is_control,
}
use veila.Curtain.ScreenOff.{set_delay, note_activity, record_visible_activity}
use veila.Curtain.Resume
use veila.Curtain.Resume.{clear_swallow_input, begin_grace_period, grace_period_active}
use veila.Curtain.Interaction.{
  CurtainApp, KeyTimes, notify_activity, start, handle_shell_key, start_backspace_repeat,
}

-- What a reload takes from the new configuration, with its time; the theme's part is a function of
-- the shell.
pub record Reloaded : Type 0 where
  pub allow_empty_password : Bool
  pub screen_off_seconds : Option ℕ
  pub reloaded_at : Instant
  pub apply_theme : ShellState → ShellState

-- The last stands for the three updates of what is displayed.
pub data ControlEvent : Type 0 where
  unlock : ControlEvent
  reload : Option Reloaded → ControlEvent
  arm_resume_input_guard : ControlEvent
  mark_resumed : ControlEvent
  update : ControlEvent

-- `.filter(|seconds| *seconds > 0).map(Duration::from_secs)`
unfoldable pub screen_off_delay : Option ℕ → Option Duration
screen_off_delay none = none
screen_off_delay (some seconds) = if ltb 0 seconds then some (from_secs seconds) else none

unfoldable pub reload_config : Option Reloaded → CurtainApp → CurtainApp
unfolding screen_off_delay
reload_config none app = app
reload_config (some c) app = record app {
  allow_empty_password = c.allow_empty_password;
  screen_off = set_delay (screen_off_delay c.screen_off_seconds) c.reloaded_at app.screen_off;
  ui_shell = c.apply_theme app.ui_shell;
}

unfoldable pub handle_control_event : ControlEvent → CurtainApp → CurtainApp
unfolding reload_config
handle_control_event unlock app = record app { exit_requested = true }
handle_control_event (reload c) app = reload_config c app
handle_control_event arm_resume_input_guard app = record app {
  resume_input = Resume.arm app.resume_input;
}
handle_control_event mark_resumed app = record app {
  resume_input = Resume.mark_resumed app.resume_input;
}
handle_control_event update app = app

unfoldable pub drain_control_events : List ControlEvent → CurtainApp → CurtainApp
unfolding handle_control_event
drain_control_events [] app = app
drain_control_events (event ∷ events) app =
    drain_control_events events (handle_control_event event app)

-- The keys that the curtain distinguishes; `A` and `U` are the keys `a` and `u`.
pub data Keysym : Type 0 where
  backspace_key return_key escape_key a_key u_key other_key : Keysym

-- The text of a key, each character with the times that are read when it is handled.
pub record KeyEvent : Type 0 where
  pub keysym : Keysym
  pub text : List (Char × KeyTimes)
  pub times : KeyTimes

unfoldable pub type_text : List (Char × KeyTimes) → CurtainApp → CurtainApp
unfolding handle_shell_key
type_text [] app = app
type_text ((c, t) ∷ text) app =
    type_text text (if is_control c then app else handle_shell_key (character c) t app)

unfoldable pub plain_key : Keysym → KeyEvent → CurtainApp → CurtainApp
unfolding type_text handle_shell_key
plain_key backspace_key event app = handle_shell_key backspace event.times app
plain_key return_key event app = handle_shell_key enter event.times app
plain_key escape_key event app = handle_shell_key escape event.times app
plain_key _ event app = type_text event.text app

unfoldable pub ctrl_key : Keysym → KeyEvent → CurtainApp → CurtainApp
unfolding plain_key handle_shell_key
ctrl_key a_key event app = handle_shell_key select_all event.times app
ctrl_key u_key event app = handle_shell_key clear event.times app
ctrl_key keysym event app = plain_key keysym event app

unfoldable pub handle_key_event : KeyEvent → CurtainApp → CurtainApp
unfolding plain_key ctrl_key
handle_key_event event app =
    if not app.has_keyboard_focus
    then app
    else if app.ctrl_active
    then ctrl_key event.keysym event app
    else plain_key event.keysym event app

-- The times that `press_key` and `repeat_key` read, in their order.
pub record PressTimes : Type 0 where
  pub grace_at : Instant
  pub activity_at : Instant
  pub visible_at : Instant
  pub swallowed_at : Instant
  pub repeat_from : Instant

unfoldable pub check_grace : Instant → CurtainApp → CurtainApp × Bool
check_grace now app =
    let (s, active) = grace_period_active now app.resume_input in
    (record app { resume_input = s }, active)

unfoldable pub notify_socket : Option FilePath → CurtainApp → CurtainApp
unfolding start
notify_socket none app = app
notify_socket (some socket_path) app = start (notify_activity socket_path) app

unfoldable pub report_activity : CurtainApp → CurtainApp
unfolding notify_socket
report_activity app = if app.has_keyboard_focus then notify_socket app.daemon_socket app else app

unfoldable pub handle_lock_activity : Instant → CurtainApp → CurtainApp × Bool
handle_lock_activity now app =
    let (s, woke) = note_activity now app.screen_off in (record app { screen_off = s }, woke)

unfoldable pub record_visible_lock_activity : Instant → CurtainApp → CurtainApp
record_visible_lock_activity now app = record app {
  screen_off = record_visible_activity now app.screen_off;
}

abbrev pub is_backspace : Keysym → Bool
is_backspace backspace_key = true
is_backspace _ = false

-- A key that wakes the outputs is not typed.
unfoldable pub woken_by_key : CurtainApp → CurtainApp
woken_by_key app = record app {
  wake_key_release_pending = true;
  resume_input = clear_swallow_input app.resume_input;
  backspace_repeat = none;
}

-- Nor is the first key after a resume.
unfoldable pub swallow_key : Instant → CurtainApp → CurtainApp
swallow_key now app = record app {
  resume_input = begin_grace_period now (from_millis 1000) (clear_swallow_input app.resume_input);
  wake_key_release_pending = true;
  backspace_repeat = none;
}

unfoldable pub press_shown : KeyEvent → PressTimes → CurtainApp → Option CurtainApp
unfolding handle_key_event swallow_key start_backspace_repeat
press_shown event t app =
    if app.resume_input.swallow_input_pending
    then some (swallow_key t.swallowed_at app)
    else if is_backspace event.keysym
    then Option.map (handle_key_event event) (start_backspace_repeat t.repeat_from app)
    else some (handle_key_event event app)

unfoldable pub press_noted : KeyEvent → PressTimes → CurtainApp × Bool → Option CurtainApp
unfolding press_shown woken_by_key record_visible_lock_activity
press_noted event t (app, true) = some (woken_by_key app)
press_noted event t (app, false) =
    press_shown event t (record_visible_lock_activity t.visible_at app)

unfoldable pub press_guarded : KeyEvent → PressTimes → CurtainApp × Bool → Option CurtainApp
unfolding press_noted handle_lock_activity report_activity
press_guarded event t (app, true) = some app
press_guarded event t (app, false) =
    press_noted event t (handle_lock_activity t.activity_at (report_activity app))

unfoldable pub press_drained : KeyEvent → PressTimes → CurtainApp → Option CurtainApp
unfolding press_guarded check_grace
press_drained event t app =
    if app.wake_key_release_pending
    then some app
    else press_guarded event t (check_grace t.grace_at app)

-- `none` is the panic of an `Instant` out of range.
unfoldable pub press_key :
    List ControlEvent → KeyEvent → PressTimes → CurtainApp → Option CurtainApp
unfolding press_drained drain_control_events
press_key controls event t app = press_drained event t (drain_control_events controls app)

unfoldable pub repeat_guarded : KeyEvent → PressTimes → CurtainApp × Bool → CurtainApp
unfolding record_visible_lock_activity handle_key_event
repeat_guarded event t (app, true) = app
repeat_guarded event t (app, false) =
    let q = record_visible_lock_activity t.visible_at app in
    if is_backspace event.keysym then q else handle_key_event event q

unfoldable pub repeat_key : List ControlEvent → KeyEvent → PressTimes → CurtainApp → CurtainApp
unfolding repeat_guarded check_grace drain_control_events
repeat_key controls event t app =
    let q = drain_control_events controls app in
    if q.wake_key_release_pending then q else repeat_guarded event t (check_grace t.grace_at q)

unfoldable pub release_key : List ControlEvent → KeyEvent → CurtainApp → CurtainApp
unfolding drain_control_events
release_key controls event app =
    let q = drain_control_events controls app in
    if q.wake_key_release_pending
    then record q { wake_key_release_pending = false; backspace_repeat = none }
    else if is_backspace event.keysym
    then record q { backspace_repeat = none }
    else q
