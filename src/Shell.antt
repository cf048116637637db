-- ===== src/Shell.antt =====
-- The lock screen's shell: `ShellState` of crates/ui/src/shell/mod.rs, with the fields that input
-- reads and writes, and its helpers of crates/ui/src/shell/state.rs and input.rs. A character is
-- its code point, and the secret the list of its characters.
use veila.Prelude.{
  ℕ, zero, suc, ◌+◌, ◌-◌, ◌*◌, ◌/◌, ◌%◌, ◌^◌, ◌≤◌, ◌<◌, min, max, ◌≡◌, refl, sym, ap, subst, ◌∙◌,
  ◌≢◌, ◌↔◌, ◌⊎◌, inl, inr, Bool, true, false, not, ◌&&◌, ◌||◌, Option, none, some, List, [], ◌∷◌,
  ◌++◌, map, arith, ltb, leb, ◌==◌, if◌then◌else◌, ltb→lt, lt→ltb, leb→le, Bool-cases, Option-cases,
  is_some, or_else, length, get_elem?, length-append, set, is_empty, length-set, nat_eq, PartialEq,
  eq_option, eq_option_iff,
}
pub mod Keys
pub mod Typing
pub mod Cooldown
pub mod Submission
pub mod Buttons
pub mod Pointer
pub mod Requests
mod Examples
use veila.Clock.{Instant, Duration, saturating_add_u64}
use veila.Daemon.Messages.{PowerAction}

abbrev pub Char : Type 0
Char = ℕ

pub data ShellStatus : Type 0 where
  idle : ShellStatus
  pending : (started_at visible_after : Instant) (shown : Bool) → ShellStatus
  rejected :
      (retry_until : Option Instant) (displayed_retry_seconds failed_attempts : Option ℕ)
      → ShellStatus

pub data ShellMode : Type 0 where
  rich emergency : ShellMode

pub data ShellKey : Type 0 where
  character : Char → ShellKey
  backspace escape clear select_all enter : ShellKey

pub data ShellAction : Type 0 where
  nothing : ShellAction
  submit : List Char → ShellAction
  power : PowerAction → ShellAction

pub record PowerConfirmation : Type 0 where
  pub action : PowerAction
  pub expires_at : Instant

-- What input reads of the theme's `PowerButton`.
pub record PowerButton : Type 0 where
  pub action : PowerAction
  pub enabled : Bool
  pub confirm : Bool

-- `input_reveal_on_interaction` and `power_buttons` are the fields of the theme.
pub record ShellState : Type 0 where
  pub mode : ShellMode
  pub secret : List Char
  pub secret_selected : Bool
  pub reveal_secret : Bool
  pub auth_revealed : Bool
  pub reveal_toggle_hovered : Bool
  pub reveal_toggle_pressed : Bool
  pub power_button_hovered : Option PowerAction
  pub power_button_pressed : Option PowerAction
  pub power_confirmation : Option PowerConfirmation
  pub requested_power_action : Option PowerAction
  pub static_scene_revision : ℕ
  pub status : ShellStatus
  pub input_reveal_on_interaction : Bool
  pub power_buttons : List PowerButton

-- `ShellState::new_with_weather_and_avatar`
unfoldable pub new : Bool → List PowerButton → ShellState
new input_reveal_on_interaction power_buttons = record {
  mode = rich;
  secret = [];
  secret_selected = false;
  reveal_secret = false;
  auth_revealed = not input_reveal_on_interaction;
  reveal_toggle_hovered = false;
  reveal_toggle_pressed = false;
  power_button_hovered = none;
  power_button_pressed = none;
  power_confirmation = none;
  requested_power_action = none;
  static_scene_revision = 1;
  status = idle;
  input_reveal_on_interaction = input_reveal_on_interaction;
  power_buttons = power_buttons;
}

-- The field is a `u64`.
unfoldable pub bump_static_scene_revision : ShellState → ShellState
bump_static_scene_revision s = record s {
  static_scene_revision = saturating_add_u64 s.static_scene_revision 1;
}

unfoldable pub input_visible : ShellState → Bool
input_visible s = s.auth_revealed || not s.input_reveal_on_interaction

unfoldable pub set_secret_selected : Bool → ShellState → ShellState × Bool
unfolding bump_static_scene_revision
set_secret_selected true s =
    if s.secret_selected
    then (s, false)
    else (bump_static_scene_revision (record s { secret_selected = true }), true)
set_secret_selected false s =
    if s.secret_selected
    then (bump_static_scene_revision (record s { secret_selected = false }), true)
    else (s, false)

unfoldable pub reveal_auth : ShellState → ShellState × Bool
unfolding bump_static_scene_revision
reveal_auth s =
    if s.auth_revealed || not s.input_reveal_on_interaction
    then (s, false)
    else (bump_static_scene_revision (record s { auth_revealed = true }), true)

unfoldable pub hide_auth : ShellState → ShellState × Bool
unfolding bump_static_scene_revision
hide_auth s =
    if not s.auth_revealed || not s.input_reveal_on_interaction
    then (s, false)
    else (bump_static_scene_revision (record s { auth_revealed = false }), true)

unfoldable pub activate_emergency : ShellState → ShellState
unfolding bump_static_scene_revision
activate_emergency s = elim s.mode [
  | emergency ↦ s
  | rich ↦ bump_static_scene_revision (record s {
    mode = emergency;
    auth_revealed = true;
    reveal_secret = false;
    reveal_toggle_hovered = false;
    reveal_toggle_pressed = false;
  })
]

-- `retry_until: Some(retry_until)` of a rejection, and none in every other status.
unfoldable pub retry_deadline : ShellStatus → Option Instant
retry_deadline (rejected retry_until _ _) = retry_until
retry_deadline _ = none

unfoldable pub before : Instant → Option Instant → Bool
before now none = false
before now (some retry_until) = ltb now retry_until

-- `now` is what `Instant::now()` answers.
unfoldable pub retry_cooldown_active : Instant → ShellState → Bool
unfolding retry_deadline before
retry_cooldown_active now s = before now (retry_deadline s.status)

unfoldable pub is_rejected : ShellStatus → Bool
is_rejected (rejected _ _ _) = true
is_rejected _ = false

unfoldable pub clear_rejected_state : ShellState → ShellState
unfolding is_rejected bump_static_scene_revision
clear_rejected_state s = if is_rejected s.status then bump_static_scene_revision s else s

unfoldable pub refresh_on_secret_empty_transition : Bool → ShellState → ShellState
unfolding bump_static_scene_revision
refresh_on_secret_empty_transition true s =
    if is_empty s.secret then s else bump_static_scene_revision s
refresh_on_secret_empty_transition false s =
    if is_empty s.secret then bump_static_scene_revision s else s

-- `char::is_control`: the code points of Unicode's category Cc.
unfoldable pub is_control : Char → Bool
is_control c = ltb c 32 || (leb 127 c && leb c 159)
