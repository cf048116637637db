-- ===== src/Shell/Buttons.antt =====
-- The power buttons of the lock screen and the confirmation that they ask for:
-- `activate_power_button` and `clear_expired_power_confirmation` of crates/ui/src/shell/pointer.rs.
use veila.Prelude.{
  ◌+◌, ◌≡◌, refl, ◌↔◌, Bool, true, false, not, ◌&&◌, ◌||◌, Option, none, some, List, [], ◌∷◌, ltb,
  leb, if◌then◌else◌, nat_eq, PartialEq, eq_option,
}
use veila.Clock.{Instant, from_secs}
use veila.Daemon.Messages.{PowerAction, suspend, reboot, poweroff}
use veila.Shell.{ShellState, PowerButton, PowerConfirmation}

abbrev pub eq_action : PowerAction → PowerAction → Bool
eq_action suspend suspend = true
eq_action reboot reboot = true
eq_action poweroff poweroff = true
eq_action _ _ = false

pub eq_action_iff : (a b : PowerAction) → (eq_action a b ≡ true) ↔ (a ≡ b)
eq_action_iff suspend suspend = (λ _. refl, λ _. refl)
eq_action_iff suspend reboot = (λ h. cc h, λ h. cc h)
eq_action_iff suspend poweroff = (λ h. cc h, λ h. cc h)
eq_action_iff reboot suspend = (λ h. cc h, λ h. cc h)
eq_action_iff reboot reboot = (λ _. refl, λ _. refl)
eq_action_iff reboot poweroff = (λ h. cc h, λ h. cc h)
eq_action_iff poweroff suspend = (λ h. cc h, λ h. cc h)
eq_action_iff poweroff reboot = (λ h. cc h, λ h. cc h)
eq_action_iff poweroff poweroff = (λ _. refl, λ _. refl)

instance abbrev pub action_eq : PartialEq PowerAction
action_eq = record { eq = eq_action; eq_iff = eq_action_iff }

unfoldable pub is_expired : Instant → Option PowerConfirmation → Bool
is_expired now none = false
is_expired now (some confirmation) = ltb confirmation.expires_at now

unfoldable pub clear_expired_power_confirmation : Instant → ShellState → ShellState × Bool
unfolding is_expired
clear_expired_power_confirmation now s =
    if is_expired now s.power_confirmation
    then (record s { power_confirmation = none }, true)
    else (s, false)

unfoldable pub confirmed_action : Instant → Option PowerConfirmation → Option PowerAction
confirmed_action now none = none
confirmed_action now (some confirmation) =
    if leb now confirmation.expires_at then some confirmation.action else none

unfoldable pub power_confirmation_action : Instant → ShellState → Option PowerAction
unfolding confirmed_action
power_confirmation_action now s = confirmed_action now s.power_confirmation

-- The first enabled button with the action.
unfoldable pub find_button : PowerAction → List PowerButton → Option PowerButton
find_button action [] = none
find_button action (b ∷ bs) =
    let rest = find_button action bs in
    if eq_action b.action action && b.enabled then some b else rest

unfoldable pub activate_found :
    Option PowerButton → PowerAction → Instant → Instant → ShellState → ShellState
unfolding power_confirmation_action
activate_found none action now confirmed_at s = s
activate_found (some button) action now confirmed_at s =
    if not button.confirm || eq_option (power_confirmation_action confirmed_at s) (some action)
    then record s { power_confirmation = none; requested_power_action = some action }
    else record s {
      power_confirmation = some (record { action = action; expires_at = now + from_secs 5 });
    }

unfoldable pub activate_power_button : PowerAction → Instant → Instant → ShellState → ShellState
unfolding activate_found find_button
activate_power_button action now confirmed_at s =
    activate_found (find_button action s.power_buttons) action now confirmed_at s
