-- ===== src/Shell/Examples.antt =====
-- A user at the lock screen.
use veila.Prelude.{ℕ, ◌≤◌, ◌≡◌, refl, true, false, some, List, [], ◌∷◌, arith, length, nat_eq}
use veila.Clock.{from_secs}
use veila.Daemon.Messages.{poweroff}
use veila.Shell.{
  character, backspace, enter, submit, ShellState, new, PowerButton, is_control, retry_deadline,
}
use veila.Shell.Keys.{handle_key, secret_limit, authentication_rejected}
use veila.Shell.Typing.{KeyPress, press, length-press-le}
use veila.Shell.Cooldown.{submits, authentication_rejected-cooldown}
use veila.Shell.Submission.{IsOpen, type_all, type_all-submits}
use veila.Shell.Buttons.{clear_expired_power_confirmation}
use veila.Shell.Pointer.{Hit, ClickTimes, is_pending, handle_pointer_release}
use veila.Shell.Requests.{MayAct, handle_pointer_release-MayAct}

abbrev power_off : PowerButton
power_off = record { action = poweroff; enabled = true; confirm = true }

abbrev shell : ShellState
shell = new true (power_off ∷ [])

-- "ab", its last character erased, and Enter.
abbrev keys : List KeyPress
keys = (character 97, 1, 1) ∷ (character 98, 2, 2) ∷ (backspace, 3, 3) ∷ (enter, 4, 4) ∷ []

abbrev password : List ℕ
password = 118 ∷ 101 ∷ 105 ∷ 108 ∷ 97 ∷ []

shell-IsOpen : IsOpen shell
unfolding new retry_deadline
shell-IsOpen = record { unselected = refl; no_cooldown = refl }

length-press-le_example : length (press keys shell).0.secret ≤ secret_limit
unfolding new
length-press-le_example = length-press-le keys shell (omega arith)

authentication_rejected-cooldown_example :
    let r = authentication_rejected (some 2000) (some 1) 10 11 shell in
    (r.secret ≡ []) × (r.reveal_secret ≡ false) × (submits (press keys r).1 ≡ 0)
authentication_rejected-cooldown_example =
    authentication_rejected-cooldown 2000 (some 1) 10 11 shell keys (omega arith) refl

type_all-submits_example :
    (handle_key enter 8 9 (press (type_all 7 password) shell).0).1 ≡ submit password
unfolding new is_control
type_all-submits_example =
    type_all-submits 7 8 9 password shell shell-IsOpen refl refl (omega arith)

-- The second click on the button, within five seconds of the first.
abbrev confirmed_shell : ShellState
confirmed_shell = record shell {
  auth_revealed = true;
  power_button_pressed = some poweroff;
  power_confirmation = some (record { action = poweroff; expires_at = from_secs 5 });
}

abbrev on_button : Hit
on_button = record { power_button = some poweroff; toggle = false }

abbrev click : ClickTimes
click = record { cleared_at = 100; activated_at = 101; confirmed_at = 102 }

handle_pointer_release-MayAct_example :
    (is_pending confirmed_shell.status ≡ false)
    × (confirmed_shell.power_button_pressed ≡ some poweroff)
    × (on_button.power_button ≡ some poweroff)
    × MayAct (clear_expired_power_confirmation 100 confirmed_shell).0 poweroff 102
unfolding new handle_pointer_release
handle_pointer_release-MayAct_example =
    handle_pointer_release-MayAct on_button click confirmed_shell poweroff refl refl
