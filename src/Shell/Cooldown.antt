-- ===== src/Shell/Cooldown.antt =====
-- The cooldown after a rejected password, on the keyboard's side.
use veila.Prelude.{
  ℕ, ◌+◌, ◌<◌, ◌≡◌, refl, ap, ◌∙◌, Bool, true, false, not, ◌&&◌, Option, some, List, [], ◌∷◌, arith,
  ltb, nat_eq,
}
use veila.Clock.{Instant, from_millis}
use veila.Shell.{
  ShellKey, character, backspace, escape, clear, select_all, enter, ShellAction, nothing, submit,
  ShellState, bump_static_scene_revision, input_visible, set_secret_selected, reveal_auth,
  retry_cooldown_active, retry_deadline, before, is_rejected, refresh_on_secret_empty_transition,
}
use veila.Shell.Keys.{
  back_to_idle, clear_selected, type_character, push_character, erase, forget_secret, submit_secret,
  handle_key, authentication_rejected, retry_until_of,
}
use veila.Shell.Typing.{KeyPress, press}

-- The submissions among the actions.
abbrev pub submits : List ShellAction → ℕ
submits [] = 0
submits (submit secret ∷ actions) = 1 + submits actions
submits (_ ∷ actions) = submits actions

abbrev pub is_escape : ShellKey → Bool
is_escape escape = true
is_escape _ = false

-- Every key is pressed before `retry_until`, and none of them is Escape.
abbrev pub early : Instant → List KeyPress → Bool
early retry_until [] = true
early retry_until ((key, now, started_at) ∷ keys) =
    not (is_escape key) && ltb now retry_until && early retry_until keys

early_parts :
    (a : Bool) (now retry_until : Instant) (b : Bool)
    → (not a && ltb now retry_until && b) ≡ true
    → (a ≡ false) × (now < retry_until) × (b ≡ true)
early_parts a now retry_until b h = ground arith

cooling_key :
    (key : ShellKey) (now started_at retry_until : Instant) (s : ShellState)
    → retry_deadline s.status ≡ some retry_until
    → is_escape key ≡ false
    → now < retry_until
    → let r = handle_key key now started_at s in (r.0.status ≡ s.status) × (r.1 ≡ nothing)
unfolding handle_key type_character push_character erase forget_secret submit_secret reveal_auth
    back_to_idle input_visible refresh_on_secret_empty_transition set_secret_selected clear_selected
    retry_cooldown_active before bump_static_scene_revision
cooling_key (character c) now started_at retry_until s e k l = ground arith
cooling_key backspace now started_at retry_until s e k l = ground arith
cooling_key escape now started_at retry_until s e k l = ground arith
cooling_key clear now started_at retry_until s e k l = ground arith
cooling_key select_all now started_at retry_until s e k l = ground arith
cooling_key enter now started_at retry_until s e k l = ground arith

-- While the cooldown of a rejection runs, no key but Escape ends it or submits: pressed before its
-- deadline, any row of other keys yields no submission and leaves the status as it is.
pub submits-press-cooldown :
    (keys : List KeyPress) (retry_until : Instant) (s : ShellState)
    → retry_deadline s.status ≡ some retry_until
    → early retry_until keys ≡ true
    → (submits (press keys s).1 ≡ 0) × ((press keys s).0.status ≡ s.status)
unfolding press
submits-press-cooldown [] retry_until s e h = (refl, refl)
submits-press-cooldown ((key, now, started_at) ∷ keys) retry_until s e h =
    let (k, l, m) = early_parts (is_escape key) now retry_until (early retry_until keys) h in
    let (same, none_) = cooling_key key now started_at retry_until s e k l in
    let (n, p) =
      submits-press-cooldown keys retry_until (handle_key key now started_at s).0
        (ap retry_deadline same ∙ e) m in
    (rw none_ n, p ∙ same)

-- A rejection with a positive delay empties the secret and hides it again, and for as long as the
-- delay lasts no row of keys without Escape submits anything.
pub authentication_rejected-cooldown :
    (ms : ℕ) (failed_attempts : Option ℕ) (now shown_at : Instant) (s : ShellState)
    (keys : List KeyPress)
    → 0 < ms
    → early (now + from_millis ms) keys ≡ true
    → let r = authentication_rejected (some ms) failed_attempts now shown_at s in
      (r.secret ≡ []) × (r.reveal_secret ≡ false) × (submits (press keys r).1 ≡ 0)
unfolding authentication_rejected forget_secret retry_until_of set_secret_selected retry_deadline
    is_rejected bump_static_scene_revision
authentication_rejected-cooldown ms failed_attempts now shown_at s keys h e =
    let r = authentication_rejected (some ms) failed_attempts now shown_at s in
    (ground arith, refl, (submits-press-cooldown keys (now + from_millis ms) r (ground arith) e).0)
