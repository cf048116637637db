-- ===== src/Curtain/Handlers.antt =====
-- Every handler makes progress in the sense of the submissions.
use veila.Prelude.{
  ◌≡◌, refl, subst, Bool, true, false, Option, none, some, List, branches, some_inj, nat_eq,
}
use mathlib.Core.Option
use veila.Clock.{Instant}
use veila.Background.{FilePath}
use veila.Shell.{backspace}
use veila.Curtain.KeyRepeat.{KeyRepeatState, consume_if_due}
use veila.Curtain.Interaction.{
  CurtainApp, KeyTimes, start, handle_shell_key, advance_input_repeat, repeat_at, repeated,
  start_backspace_repeat,
}
use veila.Curtain.Keyboard.{
  ControlEvent, drain_control_events, KeyEvent, handle_key_event, PressTimes, check_grace,
  notify_socket, report_activity, handle_lock_activity, record_visible_lock_activity, is_backspace,
  woken_by_key, swallow_key, press_shown, press_noted, press_guarded, press_drained, press_key,
  repeat_guarded, repeat_key, release_key,
}
use veila.Curtain.Submissions.{submissions, Progress, same-Progress, Progress-trans}
use veila.Curtain.Inputs.{unchanged, key-Progress, key_event-Progress, drain_control-Progress}

-- The same of a handler that may panic.
abbrev pub Yields : CurtainApp → Option CurtainApp → Type 0
Yields p o = (q : CurtainApp) → o ≡ some q → Progress p q

yields : (p q : CurtainApp) → Progress p q → Yields p (some q)
yields p q h r e = subst (Progress p) (some_inj q r e) h

Yields-trans : (p q : CurtainApp) (o : Option CurtainApp) → Progress p q → Yields q o → Yields p o
Yields-trans p q o h k r e = Progress-trans p q r h (k r e)

visible-Progress :
    (now : Instant) (p : CurtainApp) → Progress p (record_visible_lock_activity now p)
unfolding record_visible_lock_activity
visible-Progress now p = same-Progress p _ refl refl refl

notify_socket-Progress : (o : Option FilePath) (p : CurtainApp) → Progress p (notify_socket o p)
unfolding notify_socket start submissions
notify_socket-Progress none p = unchanged p
notify_socket-Progress (some path) p = same-Progress p _ refl refl refl

report_activity-Progress : (p : CurtainApp) → Progress p (report_activity p)
unfolding report_activity
report_activity-Progress p =
    branches (Progress p) p.has_keyboard_focus _ p (λ _. notify_socket-Progress p.daemon_socket p)
      (λ _. unchanged p)

repeating-Progress :
    (event : KeyEvent) (o : Option KeyRepeatState) (p : CurtainApp)
    → Yields p (
        Option.map
          (handle_key_event event)
          (Option.map (λ repeat. record p { backspace_repeat = some repeat }) o))
repeating-Progress event none p = λ q e. cc e
repeating-Progress event (some repeat) p =
    let q = record p { backspace_repeat = some repeat } in
    yields p (handle_key_event event q) (
      Progress-trans p q (handle_key_event event q) (same-Progress p q refl refl refl)
        (key_event-Progress event q))

press_shown-Progress :
    (event : KeyEvent) (t : PressTimes) (p : CurtainApp) → Yields p (press_shown event t p)
unfolding press_shown swallow_key start_backspace_repeat
press_shown-Progress event t p =
    branches (Yields p) p.resume_input.swallow_input_pending _ _
      (λ _. yields p _ (same-Progress p _ refl refl refl))
      (λ _.
        branches (Yields p) (is_backspace event.keysym) _ _ (λ _. repeating-Progress event _ p)
          (λ _. yields p _ (key_event-Progress event p)))

press_noted-Progress :
    (event : KeyEvent) (t : PressTimes) (p : CurtainApp) (woke : Bool)
    → Yields p (press_noted event t (p, woke))
unfolding press_noted woken_by_key
press_noted-Progress event t p true = yields p _ (same-Progress p _ refl refl refl)
press_noted-Progress event t p false =
    let q = record_visible_lock_activity t.visible_at p in
    Yields-trans p q (press_shown event t q) (visible-Progress t.visible_at p)
      (press_shown-Progress event t q)

press_guarded-Progress :
    (event : KeyEvent) (t : PressTimes) (p : CurtainApp) (active : Bool)
    → Yields p (press_guarded event t (p, active))
unfolding press_guarded handle_lock_activity
press_guarded-Progress event t p true = yields p p (unchanged p)
press_guarded-Progress event t p false =
    let q = report_activity p in
    let (r, woke) = handle_lock_activity t.activity_at q in
    Yields-trans p q _ (report_activity-Progress p) (
      Yields-trans q r (press_noted event t (r, woke)) (same-Progress q r refl refl refl)
        (press_noted-Progress event t r woke))

pub press_key-Progress :
    (controls : List ControlEvent) (event : KeyEvent) (t : PressTimes) (p : CurtainApp)
    → Yields p (press_key controls event t p)
unfolding press_key press_drained check_grace
press_key-Progress controls event t p =
    let q = drain_control_events controls p in
    let (r, active) = check_grace t.grace_at q in
    Yields-trans p q _ (drain_control-Progress controls p) (
      branches (Yields q) q.wake_key_release_pending _ _ (λ _. yields q q (unchanged q))
        (λ _.
          Yields-trans q r (press_guarded event t (r, active)) (same-Progress q r refl refl refl)
            (press_guarded-Progress event t r active)))

repeat_guarded-Progress :
    (event : KeyEvent) (t : PressTimes) (p : CurtainApp) (active : Bool)
    → Progress p (repeat_guarded event t (p, active))
unfolding repeat_guarded
repeat_guarded-Progress event t p true = unchanged p
repeat_guarded-Progress event t p false =
    let q = record_visible_lock_activity t.visible_at p in
    Progress-trans p q _ (visible-Progress t.visible_at p) (
      branches (Progress q) (is_backspace event.keysym) q (handle_key_event event q)
        (λ _. unchanged q) (λ _. key_event-Progress event q))

pub repeat_key-Progress :
    (controls : List ControlEvent) (event : KeyEvent) (t : PressTimes) (p : CurtainApp)
    → Progress p (repeat_key controls event t p)
unfolding repeat_key check_grace
repeat_key-Progress controls event t p =
    let q = drain_control_events controls p in
    let (r, active) = check_grace t.grace_at q in
    Progress-trans p q _ (drain_control-Progress controls p) (
      branches (Progress q) q.wake_key_release_pending _ _ (λ _. unchanged q)
        (λ _.
          Progress-trans q r (repeat_guarded event t (r, active)) (same-Progress q r refl refl refl)
            (repeat_guarded-Progress event t r active)))

pub release_key-Progress :
    (controls : List ControlEvent) (event : KeyEvent) (p : CurtainApp)
    → Progress p (release_key controls event p)
unfolding release_key
release_key-Progress controls event p =
    let q = drain_control_events controls p in
    Progress-trans p q _ (drain_control-Progress controls p) (
      branches (Progress q) q.wake_key_release_pending _ _ (λ _. same-Progress q _ refl refl refl)
        (λ _.
          branches (Progress q) (is_backspace event.keysym) _ q
            (λ _. same-Progress q _ refl refl refl) (λ _. unchanged q)))

repeated-Progress :
    (t : KeyTimes) (o : Option (KeyRepeatState × Bool)) (p : CurtainApp) → Yields p (repeated t o p)
unfolding repeated
repeated-Progress t none p = λ q e. cc e
repeated-Progress t (some (repeat, fired)) p =
    let q = record p { backspace_repeat = some repeat } in
    yields p _ (
      branches (Progress p) fired (handle_shell_key backspace t q) q
        (λ _. Progress-trans p q _ (same-Progress p q refl refl refl) (key-Progress backspace t q))
        (λ _. same-Progress p q refl refl refl))

repeat_at-Progress :
    (o : Option KeyRepeatState) (now : Instant) (t : KeyTimes) (p : CurtainApp)
    → Yields p (repeat_at o now t p)
unfolding repeat_at
repeat_at-Progress none now t p = yields p p (unchanged p)
repeat_at-Progress (some repeat) now t p = repeated-Progress t (consume_if_due now repeat) p

pub input_repeat-Progress :
    (now : Instant) (t : KeyTimes) (p : CurtainApp) → Yields p (advance_input_repeat now t p)
unfolding advance_input_repeat
input_repeat-Progress now t p = repeat_at-Progress p.backspace_repeat now t p
