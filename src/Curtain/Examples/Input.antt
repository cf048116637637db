-- ===== src/Curtain/Examples/Input.antt =====
-- Keys and answers at the curtain.
use veila.Prelude.{◌≡◌, refl, true, false, none, some, [], ◌∷◌, arith, length, nat_eq}
use veila.Daemon.Messages.{DaemonMessage}
use veila.Daemon.Client
use veila.Shell
use veila.Shell.{Char, ShellState, ShellKey, enter}
use veila.Curtain.ScreenOff
use veila.Curtain.Resume
use veila.Curtain.Interaction.{CurtainApp, KeyTimes, submit_password, handle_shell_key, run_attempt}
use veila.Curtain.Keyboard.{KeyEvent, return_key, PressTimes, repeat_key}
use veila.Curtain.Submissions.{Outcome, handle_shell_key-Outcome, submitted, submissions, InOrder}
use veila.Curtain.Attempts.{
  World, end_worker, drain, Reach, here, next, key_repeated, IsPaced, Reach-IsPaced,
}
use veila.Shell.Pointer.{ClickTimes}
use veila.Curtain.Clicks.{PointerApp}
use veila.Curtain.Waiting.{
  IsWaiting, lost_answer-waits, is_drain, Undrained, begin, then_step, refusal-ends_wait,
}

abbrev typed_shell : ShellState
typed_shell = record (Shell.new false []) { secret = 65 ∷ [] }

abbrev ready : CurtainApp
ready = record {
  ui_shell = typed_shell;
  daemon_socket = some 1;
  allow_empty_password = false;
  auth_in_flight = false;
  next_auth_attempt_id = 1;
  has_keyboard_focus = true;
  ctrl_active = false;
  backspace_repeat = none;
  screen_off = ScreenOff.new none;
  resume_input = Resume.new;
  wake_key_release_pending = false;
  exit_requested = false;
  started = [];
}

abbrev key_times : KeyTimes
key_times = record { now = 5; started_at = 6; rejected_at = 7; shown_at = 8 }

handle_shell_key-Outcome_example : Outcome ready (handle_shell_key enter key_times ready)
handle_shell_key-Outcome_example = handle_shell_key-Outcome enter key_times ready

abbrev enter_event : KeyEvent
enter_event = record { keysym = return_key; text = []; times = key_times }

abbrev press_times : PressTimes
press_times = record {
  grace_at = 1;
  activity_at = 2;
  visible_at = 3;
  swallowed_at = 4;
  repeat_from = 5;
}

abbrev ready_world : World
ready_world = record { app = ready; ended = 0; channel = [] }

abbrev submitted_world : World
submitted_world = record ready_world { app = repeat_key [] enter_event press_times ready }

ready_world-IsPaced : IsPaced ready_world
unfolding submissions InOrder
ready_world-IsPaced = record {
  running = omega arith;
  numbered = record { next_id = refl; in_order = tt };
}

submitted_world_reached : Reach ready_world submitted_world
submitted_world_reached =
    next ready_world ready_world submitted_world (here ready_world)
      (key_repeated ready_world [] enter_event press_times)

Reach-IsPaced_example : IsPaced submitted_world
Reach-IsPaced_example =
    Reach-IsPaced ready_world submitted_world submitted_world_reached ready_world-IsPaced

abbrev waiting_world : World
waiting_world = record ready_world {
  app = record ready {
    auth_in_flight = true;
    next_auth_attempt_id = 2;
    started = submit_password 1 1 (65 ∷ []) ∷ [];
  };
}

waiting_world-IsWaiting : IsWaiting waiting_world
unfolding submissions
waiting_world-IsWaiting = record { awaiting = refl; unanswered = refl; running = refl }

no_answer : run_attempt false Client.closed ≡ none
unfolding run_attempt
no_answer = refl

abbrev lost_world : World
lost_world = end_worker false Client.closed waiting_world

lost_answer-waits_example :
    (lost_world.app.auth_in_flight ≡ true)
    × (length (submitted lost_world.app) ≡ length (submitted waiting_world.app))
lost_answer-waits_example =
    lost_answer-waits waiting_world lost_world false Client.closed waiting_world-IsWaiting no_answer
      (here lost_world)

abbrev refusal : DaemonMessage
refusal = DaemonMessage.authentication_rejected 1 none (some 1)

abbrev answered_world : World
answered_world = end_worker true (Client.received refusal) waiting_world

-- Enter is pressed again before the answer is taken from the channel.
abbrev pressed_between : World
pressed_between = record answered_world {
  app = repeat_key [] enter_event press_times answered_world.app;
}

pressed-Undrained : Undrained answered_world pressed_between
unfolding is_drain
pressed-Undrained = then_step begin (key_repeated answered_world [] enter_event press_times) refl

abbrev refused_world : World
refused_world = drain (λ _. key_times) pressed_between

refusal-ends_wait_example :
    (length (submitted pressed_between.app) ≡ length (submitted waiting_world.app))
    × (refused_world.app.auth_in_flight ≡ false)
    × (length (submitted refused_world.app) ≡ length (submitted waiting_world.app))
refusal-ends_wait_example =
    refusal-ends_wait waiting_world pressed_between refusal (λ _. key_times) waiting_world-IsWaiting
      refl pressed-Undrained

abbrev resumed : CurtainApp
resumed = record ready {
  resume_input = record { armed = false; swallow_input_pending = true; swallow_until = none };
}

abbrev asleep : PointerApp
asleep = record {
  app = record ready {
    screen_off = record (ScreenOff.new (some 60)) { outputs_powered_off = true };
  };
  wake_pointer_release_pending = false;
}

abbrev click_times : ClickTimes
click_times = record { cleared_at = 1; activated_at = 2; confirmed_at = 3 }
