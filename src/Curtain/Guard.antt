-- ===== src/Curtain/Guard.antt =====
-- The key that wakes the machine from suspend is not typed.
use veila.Prelude.{◌≡◌, true, false, none, [], nat_eq}
use veila.Curtain.Interaction.{CurtainApp}
use veila.Curtain.Keyboard.{
  drain_control_events, KeyEvent, PressTimes, report_activity, handle_lock_activity,
  record_visible_lock_activity, swallow_key, release_key,
}
use veila.Curtain.Submissions.{submitted}

-- The machine has resumed with the curtain's outputs on, and no key has come since.
pub record IsResumed (p : CurtainApp) : Type 0 where
  pub pending : p.resume_input.swallow_input_pending ≡ true
  pub no_grace : p.resume_input.swallow_until ≡ none
  pub no_release : p.wake_key_release_pending ≡ false
  pub outputs_on : p.screen_off.outputs_powered_off ≡ false

-- What the report of an activity leaves as it is.
record IsReported (p q : CurtainApp) : Type 0 where
  same_shell : q.ui_shell ≡ p.ui_shell
  same_log : submitted q ≡ submitted p
  same_resume : q.resume_input ≡ p.resume_input
  same_screen : q.screen_off ≡ p.screen_off

-- The curtain after it has swallowed a key.
swallowed : PressTimes → CurtainApp → CurtainApp
unfolding swallow_key record_visible_lock_activity handle_lock_activity report_activity
swallowed t p = swallow_key t.swallowed_at (
    record_visible_lock_activity t.visible_at
      (handle_lock_activity t.activity_at (report_activity p)).0)

after_release : PressTimes → KeyEvent → CurtainApp → CurtainApp
unfolding release_key swallowed drain_control_events
after_release t release p = release_key [] release (swallowed t p)
