-- ===== src/Curtain/Inputs.antt =====
-- Every key, click and message makes progress in the sense of the submissions.
use veila.Prelude.{refl, not, Option, none, some, List, [], ◌∷◌, if◌then◌else◌, branches, nat_eq}
use veila.Clock.{Instant}
use veila.Background.{FilePath}
use veila.Shell.{
  Char, ShellState, ShellKey, character, backspace, escape, clear, select_all, enter, ShellAction,
  nothing, submit, power, is_control,
}
use veila.Shell.Pointer.{Hit, ClickTimes, handle_pointer_release, take_pointer_action}
use veila.Curtain.Interaction.{
  CurtainApp, KeyTimes, start, handle_shell_key, handle_shell_pointer_press,
  handle_shell_pointer_release, request_power,
}
use veila.Curtain.Keyboard.{
  ControlEvent, Reloaded, unlock, reload, arm_resume_input_guard, mark_resumed, update,
  reload_config, handle_control_event, drain_control_events, Keysym, backspace_key, return_key,
  escape_key, a_key, u_key, other_key, KeyEvent, type_text, plain_key, ctrl_key, handle_key_event,
}
use veila.Curtain.Submissions.{
  submissions, Progress, same-Progress, Progress-trans, Outcome-Progress, handle_shell_key-Outcome,
}

pub unchanged : (p : CurtainApp) → Progress p p
unchanged p = same-Progress p p refl refl refl

pub key-Progress :
    (key : ShellKey) (t : KeyTimes) (p : CurtainApp) → Progress p (handle_shell_key key t p)
key-Progress key t p =
    Outcome-Progress p (handle_shell_key key t p) (handle_shell_key-Outcome key t p)

pub pointer_press-Progress :
    (hit : Option Hit) (now : Instant) (p : CurtainApp)
    → Progress p (handle_shell_pointer_press hit now p)
unfolding handle_shell_pointer_press
pointer_press-Progress none now p = unchanged p
pointer_press-Progress (some hit) now p =
    branches (Progress p) p.auth_in_flight p _ (λ _. unchanged p)
      (λ _. same-Progress p _ refl refl refl)

request_power-Progress :
    (action : ShellAction) (socket : Option FilePath) (shell : ShellState) (p : CurtainApp)
    → Progress p (request_power action socket (record p { ui_shell = shell }))
unfolding request_power start submissions
request_power-Progress (power action) (some path) shell p = same-Progress p _ refl refl refl
request_power-Progress (power action) none shell p = same-Progress p _ refl refl refl
request_power-Progress nothing socket shell p = same-Progress p _ refl refl refl
request_power-Progress (submit _) socket shell p = same-Progress p _ refl refl refl

pub pointer_release-Progress :
    (hit : Option Hit) (t : ClickTimes) (p : CurtainApp)
    → Progress p (handle_shell_pointer_release hit t p)
unfolding handle_shell_pointer_release
pointer_release-Progress none t p = unchanged p
pointer_release-Progress (some hit) t p =
    let (shell, action) = take_pointer_action (handle_pointer_release hit t p.ui_shell).0 in
    branches (Progress p) p.auth_in_flight p _ (λ _. unchanged p)
      (λ _. request_power-Progress action p.daemon_socket shell p)

reload_config-Progress : (c : Option Reloaded) (p : CurtainApp) → Progress p (reload_config c p)
unfolding reload_config
reload_config-Progress none p = unchanged p
reload_config-Progress (some c) p = same-Progress p _ refl refl refl

control_event-Progress :
    (event : ControlEvent) (p : CurtainApp) → Progress p (handle_control_event event p)
unfolding handle_control_event
control_event-Progress unlock p = same-Progress p _ refl refl refl
control_event-Progress (reload c) p = reload_config-Progress c p
control_event-Progress arm_resume_input_guard p = same-Progress p _ refl refl refl
control_event-Progress mark_resumed p = same-Progress p _ refl refl refl
control_event-Progress update p = unchanged p

pub drain_control-Progress :
    (events : List ControlEvent) (p : CurtainApp) → Progress p (drain_control_events events p)
unfolding drain_control_events
drain_control-Progress [] p = unchanged p
drain_control-Progress (event ∷ events) p =
    let q = handle_control_event event p in
    Progress-trans p q (drain_control_events events q) (control_event-Progress event p)
      (drain_control-Progress events q)

type_text-Progress :
    (text : List (Char × KeyTimes)) (p : CurtainApp) → Progress p (type_text text p)
unfolding type_text
type_text-Progress [] p = unchanged p
type_text-Progress ((c, t) ∷ text) p =
    let q = if is_control c then p else handle_shell_key (character c) t p in
    Progress-trans p q (type_text text q)
      (branches (Progress p) (is_control c) p (handle_shell_key (character c) t p)
        (λ _. unchanged p) (λ _. key-Progress (character c) t p))
      (type_text-Progress text q)

plain_key-Progress :
    (keysym : Keysym) (event : KeyEvent) (p : CurtainApp) → Progress p (plain_key keysym event p)
unfolding plain_key
plain_key-Progress backspace_key event p = key-Progress backspace event.times p
plain_key-Progress return_key event p = key-Progress enter event.times p
plain_key-Progress escape_key event p = key-Progress escape event.times p
plain_key-Progress a_key event p = type_text-Progress event.text p
plain_key-Progress u_key event p = type_text-Progress event.text p
plain_key-Progress other_key event p = type_text-Progress event.text p

ctrl_key-Progress :
    (keysym : Keysym) (event : KeyEvent) (p : CurtainApp) → Progress p (ctrl_key keysym event p)
unfolding ctrl_key
ctrl_key-Progress a_key event p = key-Progress select_all event.times p
ctrl_key-Progress u_key event p = key-Progress clear event.times p
ctrl_key-Progress backspace_key event p = plain_key-Progress backspace_key event p
ctrl_key-Progress return_key event p = plain_key-Progress return_key event p
ctrl_key-Progress escape_key event p = plain_key-Progress escape_key event p
ctrl_key-Progress other_key event p = plain_key-Progress other_key event p

pub key_event-Progress : (event : KeyEvent) (p : CurtainApp) → Progress p (handle_key_event event p)
unfolding handle_key_event
key_event-Progress event p =
    branches (Progress p) (not p.has_keyboard_focus) p _ (λ _. unchanged p)
      (λ _.
        branches (Progress p) p.ctrl_active (ctrl_key event.keysym event p)
          (plain_key event.keysym event p) (λ _. ctrl_key-Progress event.keysym event p)
          (λ _. plain_key-Progress event.keysym event p))
