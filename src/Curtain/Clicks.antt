-- ===== src/Curtain/Clicks.antt =====
-- The pointer's events: `PointerHandler` of crates/curtain/src/wayland/handlers/input.rs. What a
-- point hits and the times that are read come with an event; the cursor is not part of the state.
use veila.Prelude.{Bool, true, false, not, Option, none, some, List, [], ◌∷◌, if◌then◌else◌, nat_eq}
use veila.Clock.{Instant, from_millis}
use veila.Shell.Pointer.{Hit, ClickTimes, handle_pointer_motion, handle_pointer_leave}
use veila.Curtain.Resume.{clear_swallow_input, begin_grace_period}
use veila.Curtain.Interaction.{CurtainApp, handle_shell_pointer_press, handle_shell_pointer_release}
use veila.Curtain.Keyboard.{
  ControlEvent, drain_control_events, PressTimes, check_grace, notify_socket, handle_lock_activity,
  record_visible_lock_activity,
}

-- The state of the input with the flag of the pointer.
pub record PointerApp : Type 0 where
  pub app : CurtainApp
  pub wake_pointer_release_pending : Bool

-- A press or a release says whether the button is the left one. A surface of unknown size has no hit.
pub data PointerEventKind : Type 0 where
  pointer_enter : Option Hit → PointerEventKind
  pointer_motion : Option Hit → PointerEventKind
  pointer_left : PointerEventKind
  pointer_press : Bool → Option Hit → Instant → PointerEventKind
  pointer_release : Bool → Option Hit → ClickTimes → PointerEventKind
  other_event : PointerEventKind

pub record PointerEvent : Type 0 where
  pub has_focus_target : Bool
  pub kind : PointerEventKind
  pub times : PressTimes

unfoldable pub with_app : (CurtainApp → CurtainApp) → PointerApp → PointerApp
with_app f p = record p { app = f (p.app) }

unfoldable pub handle_shell_pointer_motion : Option Hit → CurtainApp → CurtainApp
handle_shell_pointer_motion none app = app
handle_shell_pointer_motion (some hit) app = record app {
  ui_shell = (handle_pointer_motion hit (app.ui_shell)).0;
}

unfoldable pub handle_shell_pointer_leave : CurtainApp → CurtainApp
handle_shell_pointer_leave app = record app { ui_shell = (handle_pointer_leave (app.ui_shell)).0 }

unfoldable pub pointer_moved : Option Hit → PressTimes → PointerApp → PointerApp
pointer_moved hit t p =
    if p.app.resume_input.swallow_input_pending
    then p
    else with_app
        (λ a. handle_shell_pointer_motion hit (record_visible_lock_activity (t.visible_at) a)) p

-- A press after a resume is swallowed, with its release.
unfoldable pub swallow_press : Instant → CurtainApp → CurtainApp
swallow_press now app = record app {
  resume_input = begin_grace_period now (from_millis 1000) (clear_swallow_input (app.resume_input));
}

unfoldable pub click : Bool → Option Hit → Instant → PointerApp → PointerApp
click left hit cleared_at p =
    if left then with_app (handle_shell_pointer_press hit cleared_at) p else p

unfoldable pub press_visible : Bool → Option Hit → Instant → PressTimes → PointerApp → PointerApp
press_visible left hit cleared_at t p =
    if p.app.resume_input.swallow_input_pending
    then record {
      app = swallow_press (t.swallowed_at) (p.app);
      wake_pointer_release_pending = true;
    }
    else click left hit cleared_at p

-- A press that wakes the outputs does nothing else.
unfoldable pub press_woken :
    Bool → Option Hit → Instant → PressTimes → Bool → CurtainApp × Bool → PointerApp
press_woken left hit cleared_at t pending (app, true) = record {
  app = record app { resume_input = clear_swallow_input (app.resume_input) };
  wake_pointer_release_pending = true;
}
press_woken left hit cleared_at t pending (app, false) =
    press_visible left hit cleared_at t (record {
      app = record_visible_lock_activity (t.visible_at) app;
      wake_pointer_release_pending = pending;
    })

unfoldable pub press_in_grace :
    Bool → Option Hit → Instant → PressTimes → Bool → CurtainApp × Bool → PointerApp
press_in_grace left hit cleared_at t pending (app, true) = record {
  app = app;
  wake_pointer_release_pending = pending;
}
press_in_grace left hit cleared_at t pending (app, false) =
    press_woken left hit cleared_at t pending
      (handle_lock_activity (t.activity_at) (notify_socket (app.daemon_socket) app))

unfoldable pub pointer_pressed : Bool → Option Hit → Instant → PressTimes → PointerApp → PointerApp
pointer_pressed left hit cleared_at t p =
    if p.wake_pointer_release_pending
    then p
    else press_in_grace left hit cleared_at t (p.wake_pointer_release_pending)
        (check_grace (t.grace_at) (p.app))

unfoldable pub pointer_released :
    Bool → Option Hit → ClickTimes → PressTimes → PointerApp → PointerApp
pointer_released left hit clicks t p =
    let q = with_app (record_visible_lock_activity (t.visible_at)) p in
    if p.wake_pointer_release_pending
    then record q { wake_pointer_release_pending = false }
    else if left
    then with_app (handle_shell_pointer_release hit clicks) q
    else q

unfoldable pub on_kind : PointerEventKind → PressTimes → PointerApp → PointerApp
on_kind (pointer_enter hit) t p = pointer_moved hit t p
on_kind (pointer_motion hit) t p = pointer_moved hit t p
on_kind pointer_left t p =
    if p.app.resume_input.swallow_input_pending then p else with_app handle_shell_pointer_leave p
on_kind (pointer_press left hit cleared_at) t p = pointer_pressed left hit cleared_at t p
on_kind (pointer_release left hit clicks) t p = pointer_released left hit clicks t p
on_kind other_event t p = p

-- With the outputs off only a press counts; a release ends the press that woke them before.
unfoldable pub with_outputs_off : PointerEventKind → PressTimes → PointerApp → PointerApp
with_outputs_off (pointer_press left hit cleared_at) t p = pointer_pressed left hit cleared_at t p
with_outputs_off (pointer_release left hit clicks) t p = record p {
  wake_pointer_release_pending = false;
}
with_outputs_off _ t p = p

unfoldable pub pointer_event : PointerEvent → PointerApp → PointerApp
pointer_event e p =
    if not (e.has_focus_target)
    then p
    else if p.app.screen_off.outputs_powered_off
    then with_outputs_off (e.kind) (e.times) p
    else on_kind (e.kind) (e.times) p

unfoldable pub pointer_events : List PointerEvent → PointerApp → PointerApp
pointer_events [] p = p
pointer_events (e ∷ rest) p = pointer_events rest (pointer_event e p)

unfoldable pub pointer_frame : List ControlEvent → List PointerEvent → PointerApp → PointerApp
pointer_frame controls events p = pointer_events events (with_app (drain_control_events controls) p)
