-- ===== src/Shell/Submission.antt =====
-- What is typed is what is submitted.
use veila.Prelude.{
  ◌+◌, ◌≤◌, ◌<◌, ◌≡◌, refl, sym, ap, ◌∙◌, Bool, true, false, not, ◌&&◌, none, List, [], ◌∷◌, ◌++◌,
  arith, length, length-append, nat_eq,
}
use veila.Clock.{Instant}
use veila.Shell.{
  Char, character, enter, submit, ShellState, bump_static_scene_revision, set_secret_selected,
  reveal_auth, retry_cooldown_active, retry_deadline, before, is_rejected, clear_rejected_state,
  refresh_on_secret_empty_transition, is_control,
}
use veila.Shell.Keys.{
  secret_limit, back_to_idle, clear_selected, type_character, push_character, submit_secret,
  handle_key,
}
use veila.Shell.Typing.{KeyPress, press}

-- Typing these characters, each at time `now`.
unfoldable pub type_all : Instant → List Char → List KeyPress
type_all now [] = []
type_all now (c ∷ cs) = (character c, now, now) ∷ type_all now cs

abbrev pub printable : List Char → Bool
printable [] = true
printable (c ∷ cs) = not (is_control c) && printable cs

-- A shell that takes characters: nothing is selected, and no cooldown runs.
pub record IsOpen (s : ShellState) : Type 0 where
  pub unselected : s.secret_selected ≡ false
  pub no_cooldown : retry_deadline s.status ≡ none

type_step :
    (c : Char) (now : Instant) (s : ShellState)
    → IsOpen s
    → is_control c ≡ false
    → length s.secret < secret_limit
    → let r = handle_key (character c) now now s in
      (r.0.secret ≡ s.secret ++ (c ∷ []))
      × (r.0.secret_selected ≡ false)
      × (retry_deadline r.0.status ≡ none)
unfolding handle_key type_character push_character reveal_auth back_to_idle
    refresh_on_secret_empty_transition clear_selected retry_cooldown_active retry_deadline before
    clear_rejected_state is_rejected bump_static_scene_revision
type_step c now s w k l = ground arith

append_snoc : (xs ys : List Char) (c : Char) → (xs ++ (c ∷ [])) ++ ys ≡ xs ++ (c ∷ ys)
append_snoc [] ys c = refl
append_snoc (x ∷ xs) ys c = ap (λ zs. x ∷ zs) (append_snoc xs ys c)

append_nil : (xs : List Char) → xs ++ [] ≡ xs
append_nil [] = refl
append_nil (x ∷ xs) = ap (λ zs. x ∷ zs) (append_nil xs)

enter_submits :
    (now started_at : Instant) (s : ShellState)
    → IsOpen s
    → (handle_key enter now started_at s).1 ≡ submit s.secret
unfolding handle_key submit_secret reveal_auth set_secret_selected retry_cooldown_active before
    bump_static_scene_revision
enter_submits now started_at s w = ground arith

printable_parts : (a b : Bool) → (not a && b) ≡ true → (a ≡ false) × (b ≡ true)
printable_parts a b h = ground arith

typed_secret :
    (now : Instant) (cs : List Char) (s : ShellState)
    → IsOpen s
    → printable cs ≡ true
    → length s.secret + length cs ≤ secret_limit
    → ((press (type_all now cs) s).0.secret ≡ s.secret ++ cs) × IsOpen (press (type_all now cs) s).0
unfolding press type_all
typed_secret now [] s w p l = (sym (append_nil s.secret), w)
typed_secret now (c ∷ cs) s w p l =
    let (k, ks) = printable_parts (is_control c) (printable cs) p in
    let (e, u, n) = type_step c now s w k (omega (arith, l)) in
    let (f, v) =
      typed_secret now cs (handle_key (character c) now now s).0
        (record { unselected = u; no_cooldown = n }) ks
        (omega (arith, l, ap length e, length-append s.secret (c ∷ []))) in
    (f ∙ (ap (λ xs. xs ++ cs) e ∙ append_snoc s.secret cs c), v)

-- Typing at most 128 characters, none of them a control character, into an empty secret with nothing
-- selected and no cooldown, and then Enter, submits exactly these characters.
pub type_all-submits :
    (now entered_at started_at : Instant) (cs : List Char) (s : ShellState)
    → IsOpen s
    → s.secret ≡ []
    → printable cs ≡ true
    → length cs ≤ secret_limit
    → (handle_key enter entered_at started_at (press (type_all now cs) s).0).1 ≡ submit cs
type_all-submits now entered_at started_at cs s w e p l =
    let (f, v) = typed_secret now cs s w p (omega (arith, l, ap length e)) in
    enter_submits entered_at started_at (press (type_all now cs) s).0 v
    ∙ ap submit (f ∙ ap (λ xs. xs ++ cs) e)
