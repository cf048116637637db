-- ===== src/Shell/Pointer.antt =====
-- The pointer: crates/ui/src/shell/pointer.rs. The layout answers what lies under the pointer: the
-- power button found by `power_action_at`, and whether the rectangle of the reveal toggle holds the
-- point. A handler's times are what `Instant::now()` answers, one for each call.
use veila.Prelude.{
  Bool, true, false, not, ◌&&◌, ◌||◌, Option, none, some, if◌then◌else◌, is_some, nat_eq, eq_option,
}
use veila.Clock.{Instant}
use veila.Daemon.Messages.{PowerAction}
use veila.Shell.{
  ShellStatus, pending, ShellAction, nothing, power, ShellState, input_visible, set_secret_selected,
  reveal_auth,
}
use veila.Shell.Buttons.{action_eq, clear_expired_power_confirmation, activate_power_button}

pub record Hit : Type 0 where
  pub power_button : Option PowerAction
  pub toggle : Bool

-- The times of `clear_expired_power_confirmation`, of `activate_power_button` and of
-- `power_confirmation_action`.
pub record ClickTimes : Type 0 where
  pub cleared_at : Instant
  pub activated_at : Instant
  pub confirmed_at : Instant

unfoldable pub is_pending : ShellStatus → Bool
is_pending (pending _ _ _) = true
is_pending _ = false

-- No button and no toggle is hovered or pressed.
unfoldable pub release_all : ShellState → ShellState
release_all s = record s {
  reveal_toggle_hovered = false;
  reveal_toggle_pressed = false;
  power_button_hovered = none;
  power_button_pressed = none;
}

unfoldable pub touched : ShellState → Bool
touched s =
    s.reveal_toggle_hovered
    || s.reveal_toggle_pressed
    || is_some s.power_button_hovered
    || is_some s.power_button_pressed

unfoldable pub handle_pointer_leave : ShellState → ShellState × Bool
unfolding release_all touched
handle_pointer_leave s = (release_all s, touched s)

neq_action : Option PowerAction → Option PowerAction → Bool
neq_action a b = not (eq_option a b)

unfoldable pub xor : Bool → Bool → Bool
xor true b = not b
xor false b = b

move_shown : Hit → ShellState → ShellState × Bool
unfolding input_visible neq_action xor
move_shown hit s =
    let hovered = input_visible s && not (is_some hit.power_button) && hit.toggle in
    let q = record s { reveal_toggle_hovered = hovered; power_button_hovered = hit.power_button } in
    if not hovered && s.reveal_toggle_pressed
    then (record q { reveal_toggle_pressed = false }, true)
    else if is_some s.power_button_pressed && neq_action s.power_button_pressed hit.power_button
    then (record q { power_button_pressed = none }, true)
    else (
      q,
      xor s.reveal_toggle_hovered hovered || neq_action s.power_button_hovered hit.power_button,
    )

unfoldable pub handle_pointer_motion : Hit → ShellState → ShellState × Bool
unfolding move_shown handle_pointer_leave is_pending
handle_pointer_motion hit s =
    if is_pending s.status then handle_pointer_leave s else move_shown hit s

press_elsewhere : Bool → ShellState → ShellState × Bool
unfolding set_secret_selected xor
press_elsewhere pressed s =
    let (q, selection_changed) = set_secret_selected false s in
    (
      record q {
        reveal_toggle_hovered = pressed;
        reveal_toggle_pressed = pressed;
        power_button_hovered = none;
        power_button_pressed = none;
      },
      selection_changed
          || xor q.reveal_toggle_pressed pressed
          || xor q.reveal_toggle_hovered pressed
          || is_some q.power_button_hovered
          || is_some q.power_button_pressed,
    )

-- `if self.reveal_auth() { return true; }` before the rest of a handler.
unfoldable pub or_reveal : (ShellState → ShellState × Bool) → ShellState → ShellState × Bool
unfolding reveal_auth
or_reveal rest s = let (q, revealed) = reveal_auth s in if revealed then (q, true) else rest q

press_at : Option PowerAction → Bool → ShellState → ShellState × Bool
unfolding press_elsewhere or_reveal neq_action
press_at none toggle s = or_reveal (press_elsewhere toggle) s
press_at (some action) toggle s = (
  record s {
    power_button_hovered = some action;
    power_button_pressed = some action;
    reveal_toggle_hovered = false;
    reveal_toggle_pressed = false;
  },
  neq_action s.power_button_pressed (some action)
      || neq_action s.power_button_hovered (some action),
)

unfoldable pub handle_pointer_press : Hit → Instant → ShellState → ShellState × Bool
unfolding press_at handle_pointer_leave is_pending clear_expired_power_confirmation
handle_pointer_press hit cleared_at s =
    if is_pending s.status
    then handle_pointer_leave s
    else press_at hit.power_button hit.toggle (clear_expired_power_confirmation cleared_at s).0

unfoldable pub release_elsewhere : Hit → ShellState → ShellState × Bool
unfolding input_visible neq_action xor
release_elsewhere hit s =
    let hovered = input_visible s && not (is_some hit.power_button) && hit.toggle in
    let toggled = s.reveal_toggle_pressed && hovered in
    (
      record s {
        reveal_toggle_pressed = false;
        reveal_toggle_hovered = hovered;
        power_button_hovered = hit.power_button;
        power_button_pressed = none;
        reveal_secret = xor toggled s.reveal_secret;
      },
      s.reveal_toggle_pressed
          || xor s.reveal_toggle_hovered hovered
          || neq_action s.power_button_hovered hit.power_button
          || is_some s.power_button_pressed
          || toggled,
    )

-- The pressed button, if the pointer is still on it.
unfoldable pub clicked : Option PowerAction → Option PowerAction → Option PowerAction
clicked none hovered = none
clicked (some pressed) hovered = if eq_option (some pressed) hovered then some pressed else none

unfoldable pub release_at : Option PowerAction → Hit → ClickTimes → ShellState → ShellState × Bool
unfolding release_elsewhere or_reveal activate_power_button
release_at none hit times s = or_reveal (release_elsewhere hit) s
release_at (some action) hit times s = (
  record (activate_power_button action times.activated_at times.confirmed_at s) {
    power_button_pressed = none;
    power_button_hovered = hit.power_button;
    reveal_toggle_hovered = false;
    reveal_toggle_pressed = false;
  },
  true,
)

unfoldable pub handle_pointer_release : Hit → ClickTimes → ShellState → ShellState × Bool
unfolding release_at clicked handle_pointer_leave is_pending clear_expired_power_confirmation
handle_pointer_release hit times s =
    if is_pending s.status
    then handle_pointer_leave s
    else release_at (clicked s.power_button_pressed hit.power_button) hit times
        (clear_expired_power_confirmation times.cleared_at s).0

action_of : Option PowerAction → ShellAction
action_of none = nothing
action_of (some action) = power action

unfoldable pub take_pointer_action : ShellState → ShellState × ShellAction
unfolding action_of
take_pointer_action s =
    (record s { requested_power_action = none }, action_of s.requested_power_action)
