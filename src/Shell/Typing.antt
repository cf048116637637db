-- ===== src/Shell/Typing.antt =====
-- What a row of keys does to the secret and to the cooldown after a rejection.
use veila.Prelude.{◌≤◌, List, [], ◌∷◌, arith, length, length-append, nat_eq}
use veila.Clock.{Instant}
use veila.Shell.{
  Char, ShellKey, character, backspace, escape, clear, select_all, enter, ShellAction, ShellState,
  bump_static_scene_revision, input_visible, set_secret_selected, reveal_auth, hide_auth,
  clear_rejected_state, refresh_on_secret_empty_transition,
}
use veila.Shell.Keys.{
  pop, secret_limit, back_to_idle, clear_selected, type_character, erase, forget_secret,
  submit_secret, escape_shown, handle_key,
}

-- A key with the two answers of `Instant::now()`.
abbrev pub KeyPress : Type 0
KeyPress = ShellKey × Instant × Instant

unfoldable pub press : List KeyPress → ShellState → ShellState × List ShellAction
press [] s = (s, [])
press ((key, now, started_at) ∷ keys) s =
    let (q, action) = handle_key key now started_at s in
    let (r, actions) = press keys q in (r, action ∷ actions)

length-pop : (cs : List Char) → length (pop cs) ≤ length cs
unfolding pop
length-pop [] = omega arith
length-pop (c ∷ []) = omega arith
length-pop (c ∷ d ∷ cs) = omega (arith, length-pop (d ∷ cs))

pub secret_bound :
    (key : ShellKey) (now started_at : Instant) (s : ShellState)
    → length s.secret ≤ secret_limit
    → length (handle_key key now started_at s).0.secret ≤ secret_limit
unfolding handle_key type_character erase forget_secret submit_secret escape_shown reveal_auth
    back_to_idle input_visible refresh_on_secret_empty_transition set_secret_selected hide_auth
    clear_selected clear_rejected_state bump_static_scene_revision
secret_bound (character c) now started_at s h = ground (arith, length-append s.secret (c ∷ []))
secret_bound backspace now started_at s h = ground (arith, length-pop s.secret)
secret_bound escape now started_at s h = ground arith
secret_bound clear now started_at s h = ground arith
secret_bound select_all now started_at s h = ground arith
secret_bound enter now started_at s h = ground arith

-- The secret never holds more than 128 characters, whatever keys are pressed at whatever times.
pub length-press-le :
    (keys : List KeyPress) (s : ShellState)
    → length s.secret ≤ secret_limit
    → length (press keys s).0.secret ≤ secret_limit
unfolding press
length-press-le [] s h = h
length-press-le ((key, now, started_at) ∷ keys) s h =
    length-press-le keys (handle_key key now started_at s).0 (secret_bound key now started_at s h)
