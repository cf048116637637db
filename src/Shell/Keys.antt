-- ===== src/Shell/Keys.antt =====
-- The keyboard: `handle_key` and what a rejection does to the shell, of
-- crates/ui/src/shell/input.rs. A handler's times are what `Instant::now()` answers, one for each
-- call.
use veila.Prelude.{
  ℕ, ◌+◌, ◌/◌, false, not, ◌&&◌, ◌||◌, Option, none, some, List, [], ◌∷◌, ◌++◌, ltb, ◌==◌,
  if◌then◌else◌, length, is_empty, nat_eq,
}
use veila.Clock.{Instant, from_millis, as_millis, saturating_duration_since}
use veila.Shell.{
  Char, idle, pending, rejected, ShellKey, character, backspace, escape, clear, select_all, enter,
  ShellAction, nothing, submit, ShellState, bump_static_scene_revision, input_visible,
  set_secret_selected, reveal_auth, hide_auth, retry_cooldown_active, is_rejected,
  clear_rejected_state, refresh_on_secret_empty_transition, is_control,
}

-- `String::pop`
unfoldable pub pop : List Char → List Char
pop [] = []
pop (c ∷ []) = []
pop (c ∷ d ∷ cs) = c ∷ pop (d ∷ cs)

abbrev pub secret_limit : ℕ
secret_limit = 128

-- What the keys that change the secret do to the status, unless a cooldown runs.
unfoldable pub back_to_idle : Instant → ShellState → ShellState
unfolding retry_cooldown_active clear_rejected_state
back_to_idle now s =
    if retry_cooldown_active now s then s else record (clear_rejected_state s) { status = idle }

-- An assignment of the secret that also drops its selection, if it is selected.
unfoldable pub clear_selected : ShellState → ShellState
unfolding set_secret_selected
clear_selected s =
    if s.secret_selected then (set_secret_selected false (record s { secret = [] })).0 else s

-- `self.secret.push(character)` and what follows it.
unfoldable pub push_character : Char → Instant → ShellState → ShellState
unfolding back_to_idle
push_character c now s = back_to_idle now (record s { secret = s.secret ++ (c ∷ []) })

unfoldable pub type_character : Char → Instant → ShellState → ShellState
unfolding clear_selected push_character is_control
type_character c now s =
    if not (is_control c) && (s.secret_selected || ltb (length s.secret) secret_limit)
    then push_character c now (clear_selected s)
    else s

unfoldable pub erase : Instant → ShellState → ShellState
unfolding clear_selected back_to_idle pop
erase now s =
    back_to_idle now
      (if s.secret_selected then clear_selected s else record s { secret = pop s.secret })

-- `self.secret.clear()` and the resets after it, shared by Escape, Clear and a rejection.
unfoldable pub forget_secret : ShellState → ShellState
unfolding set_secret_selected
forget_secret s = record (set_secret_selected false (record s { secret = [] })).0 {
  reveal_secret = false;
  reveal_toggle_pressed = false;
}

unfoldable pub submit_secret : Instant → Instant → ShellState → ShellState × ShellAction
unfolding retry_cooldown_active set_secret_selected
submit_secret now started_at s =
    let q = (set_secret_selected false s).0 in
    if retry_cooldown_active now q then (q, nothing) else (
      record q { status = pending started_at (started_at + from_millis 1000) false },
      submit q.secret,
    )

unfoldable pub escape_shown : ShellState → ShellState
unfolding forget_secret hide_auth refresh_on_secret_empty_transition
escape_shown s =
    refresh_on_secret_empty_transition (is_empty s.secret)
      (hide_auth (record (forget_secret s) { status = idle })).0

unfoldable pub handle_key : ShellKey → Instant → Instant → ShellState → ShellState × ShellAction
unfolding type_character erase forget_secret submit_secret escape_shown reveal_auth back_to_idle
    input_visible refresh_on_secret_empty_transition set_secret_selected
handle_key (character c) now _ s = (
  refresh_on_secret_empty_transition (is_empty s.secret) (type_character c now (reveal_auth s).0),
  nothing,
)
handle_key backspace now _ s =
    (refresh_on_secret_empty_transition (is_empty s.secret) (erase now (reveal_auth s).0), nothing)
handle_key escape _ _ s = if input_visible s then (escape_shown s, nothing) else (s, nothing)
handle_key clear now _ s = (
  refresh_on_secret_empty_transition (is_empty s.secret)
      (back_to_idle now (forget_secret (reveal_auth s).0)),
  nothing,
)
handle_key select_all _ _ s =
    let q = (reveal_auth s).0 in ((set_secret_selected (not (is_empty q.secret)) q).0, nothing)
handle_key enter now started_at s = submit_secret now started_at (reveal_auth s).0

unfoldable pub authentication_busy : ShellState → ShellState
authentication_busy s = record s { status = idle }

-- `current_retry_seconds` of crates/ui/src/shell/avatar.rs, with `div_ceil`.
unfoldable pub current_retry_seconds : Instant → Instant → Option ℕ
current_retry_seconds now retry_until =
    let seconds = (as_millis (saturating_duration_since retry_until now) + 999) / 1000 in
    if seconds == 0 then none else some seconds

-- The deadline of a positive delay in milliseconds.
unfoldable pub retry_until_of : Instant → Option ℕ → Option Instant
retry_until_of now none = none
retry_until_of now (some ms) = if ltb 0 ms then some (now + from_millis ms) else none

displayed_of : Instant → Option Instant → Option ℕ
unfolding current_retry_seconds
displayed_of now none = none
displayed_of now (some retry_until) = current_retry_seconds now retry_until

-- `now` is read for the deadline, `shown_at` for the seconds to display.
unfoldable pub authentication_rejected :
    Option ℕ → Option ℕ → Instant → Instant → ShellState → ShellState
unfolding forget_secret retry_until_of displayed_of is_rejected bump_static_scene_revision
authentication_rejected retry_after_ms failed_attempts now shown_at s =
    let q = if is_rejected s.status then s else bump_static_scene_revision s in
    let retry_until = retry_until_of now retry_after_ms in
    record (forget_secret q) {
      status = rejected retry_until (displayed_of shown_at retry_until) failed_attempts;
    }
