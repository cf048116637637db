-- ===== src/Curtain/Waking.antt =====
-- The click that wakes the outputs presses no button.
use veila.Prelude.{◌≡◌, Bool, true, false, Option, none, some, is_some, nat_eq}
use veila.Clock.{Instant}
use veila.Shell.Pointer.{Hit, ClickTimes}
use veila.Curtain.Resume.{clear_swallow_input}
use veila.Curtain.Keyboard.{PressTimes, notify_socket}
use veila.Curtain.Clicks.{PointerApp, pointer_press, pointer_release, PointerEvent}

-- The outputs are off, and a timer is set that switches them off; no press is being waited for.
pub record IsAsleep (p : PointerApp) : Type 0 where
  pub timer : is_some (p.app.screen_off.delay) ≡ true
  pub outputs_off : p.app.screen_off.outputs_powered_off ≡ true
  pub no_grace : p.app.resume_input.swallow_until ≡ none
  pub no_release : p.wake_pointer_release_pending ≡ false

-- The state after a press has woken the outputs.
unfoldable pub awake : PressTimes → PointerApp → PointerApp
awake t p =
    let q = notify_socket (p.app.daemon_socket) (p.app) in
    record {
      app = record q {
        screen_off = record (q.screen_off) {
          outputs_powered_off = false;
          last_activity_at = some (t.activity_at);
        };
        resume_input = clear_swallow_input (q.resume_input);
      };
      wake_pointer_release_pending = true;
    }

unfoldable pub press_of : Bool → Option Hit → Instant → PressTimes → PointerEvent
press_of left hit c t = record {
  has_focus_target = true;
  kind = pointer_press left hit c;
  times = t;
}

unfoldable pub release_of : Bool → Option Hit → ClickTimes → PressTimes → PointerEvent
release_of left hit clicks t = record {
  has_focus_target = true;
  kind = pointer_release left hit clicks;
  times = t;
}

-- What the theorem below states of the state after a click.
abbrev pub Untouched : PointerApp → PointerApp → Type 0
Untouched p q =
    (q.app.ui_shell ≡ p.app.ui_shell)
    × (q.app.started ≡ (notify_socket (p.app.daemon_socket) (p.app)).started)
    × (q.app.screen_off.outputs_powered_off ≡ false)
    × (q.wake_pointer_release_pending ≡ false)
