-- ===== src/Shell/Requests.antt =====
-- When a click requests a power action.
use veila.Prelude.{
  ◌+◌, ◌≤◌, ◌≡◌, refl, sym, ap, subst, ◌∙◌, ◌⊎◌, inl, inr, Bool, true, false, not, ◌&&◌, ◌||◌,
  Option, none, some, List, [], ◌∷◌, arith, leb, if◌then◌else◌, leb→le, and_parts, some_inj, nat_eq,
  eq_option, eq_option_iff,
}
use veila.Clock.{Instant, from_secs}
use veila.Daemon.Messages.{PowerAction}
use veila.Shell.{
  ShellState, reveal_auth, PowerButton, PowerConfirmation, bump_static_scene_revision,
}
use veila.Shell.Buttons.{
  eq_action, eq_action_iff, action_eq, clear_expired_power_confirmation, activate_power_button,
  activate_found, find_button, power_confirmation_action, confirmed_action,
}
use veila.Shell.Pointer.{
  Hit, ClickTimes, is_pending, handle_pointer_leave, handle_pointer_release, release_at,
  release_elsewhere, clicked, or_reveal, release_all,
}

-- The click may act: it has an enabled button for the action, and the button needs no confirmation or
-- the same action has been confirmed and the confirmation has not expired.
pub record MayAct (s : ShellState) (action : PowerAction) (now : Instant) : Type 0 where
  pub button : PowerButton
  pub found : find_button action s.power_buttons ≡ some button
  pub enabled : button.enabled ≡ true
  pub own_action : button.action ≡ action
  pub confirmed :
      (button.confirm ≡ false)
      ⊎ ((c : PowerConfirmation) × (s.power_confirmation ≡ some c)
          × (c.action ≡ action)
          × (now ≤ c.expires_at))

if_some {ℓ} :
    {A : Type ℓ} (c : Bool) (x y : A) (rest : Option A)
    → (if c then some x else rest) ≡ some y
    → ((c ≡ true) × (x ≡ y)) ⊎ (rest ≡ some y)
if_some true x y rest h = inl (refl, some_inj x y h)
if_some false x y rest h = inr h

find_button_lem :
    (action : PowerAction) (bs : List PowerButton) (b : PowerButton)
    → find_button action bs ≡ some b
    → (b.enabled ≡ true) × (b.action ≡ action)
unfolding find_button
find_button_lem action [] b h = cc h
find_button_lem action (x ∷ bs) b h =
    elim (if_some (eq_action x.action action && x.enabled) x b (find_button action bs) h) [
      | inl (e, same) ↦
          let (p, q) = and_parts (eq_action x.action action) x.enabled e in
          (
            ap (λ c. c.enabled) (sym same) ∙ q,
            ap (λ c. c.action) (sym same) ∙ (eq_action_iff x.action action).0 p,
          )
      | inr k ↦ find_button_lem action bs b k
    ]

confirmed_action_lem :
    (o : Option PowerConfirmation) (now : Instant) (action : PowerAction)
    → confirmed_action now o ≡ some action
    → (c : PowerConfirmation) × (o ≡ some c) × (c.action ≡ action) × (now ≤ c.expires_at)
unfolding confirmed_action
confirmed_action_lem none now action h = cc h
confirmed_action_lem (some c) now action h =
    elim (if_some (leb now c.expires_at) c.action action none h) [
      | inl (e, same) ↦ (c, refl, same, leb→le now c.expires_at e)
      | inr k ↦ cc k
    ]

or_parts : (a b : Bool) → (not a || b) ≡ true → (a ≡ false) ⊎ (b ≡ true)
or_parts a b h = ground arith

requested_if :
    (c : Bool) (a : PowerAction) (x y : ShellState)
    → (if c then x else y).requested_power_action ≡ some a
    → y.requested_power_action ≡ none
    → (x.requested_power_action ≡ some a) × (c ≡ true)
requested_if true a x y h n = (h, refl)
requested_if false a x y h n = cc (sym n ∙ h)

activate_found-requests :
    (button : PowerButton) (action a : PowerAction) (now confirmed_at : Instant) (s : ShellState)
    → s.requested_power_action ≡ none
    → (activate_found (some button) action now confirmed_at s).requested_power_action ≡ some a
    → (action ≡ a)
      × ((not button.confirm || eq_option (power_confirmation_action confirmed_at s) (some action))
          ≡ true)
unfolding activate_found
activate_found-requests button action a now confirmed_at s n h =
    let (p, e) =
      requested_if
        (not button.confirm || eq_option (power_confirmation_action confirmed_at s) (some action)) a
        (record s { power_confirmation = none; requested_power_action = some action })
        (record s {
          power_confirmation = some (record { action = action; expires_at = now + from_secs 5 });
        })
        h n in
    (some_inj action a p, e)

confirmation :
    (s : ShellState) (action : PowerAction) (now : Instant) (button : PowerButton)
    → (button.confirm ≡ false) ⊎ (eq_option (power_confirmation_action now s) (some action) ≡ true)
    → (button.confirm ≡ false)
      ⊎ ((c : PowerConfirmation) × (s.power_confirmation ≡ some c)
          × (c.action ≡ action)
          × (now ≤ c.expires_at))
unfolding power_confirmation_action
confirmation s action now button (inl e) = inl e
confirmation s action now button (inr e) = inr (
    confirmed_action_lem s.power_confirmation now action
      ((eq_option_iff (power_confirmation_action now s) (some action)).0 e))

may_act :
    (action : PowerAction) (now confirmed_at : Instant) (s : ShellState) (o : Option PowerButton)
    → find_button action s.power_buttons ≡ o
    → (a : PowerAction) → s.requested_power_action ≡ none
    → (activate_found o action now confirmed_at s).requested_power_action ≡ some a
    → (action ≡ a) × MayAct s action confirmed_at
unfolding activate_found
may_act action now confirmed_at s none f a n h = cc (sym n ∙ h)
may_act action now confirmed_at s (some button) f a n h =
    let (same, e) = activate_found-requests button action a now confirmed_at s n h in
    let (on, own) = find_button_lem action s.power_buttons button f in
    (
      same,
      record {
        button = button;
        found = f;
        enabled = on;
        own_action = own;
        confirmed = confirmation s action confirmed_at button (
            or_parts button.confirm
              (eq_option (power_confirmation_action confirmed_at s) (some action)) e);
      },
    )

release_at-MayAct :
    (o : Option PowerAction) (hit : Hit) (times : ClickTimes) (s : ShellState) (a : PowerAction)
    → s.requested_power_action ≡ none
    → (release_at o hit times s).0.requested_power_action ≡ some a
    → (o ≡ some a) × MayAct s a times.confirmed_at
unfolding release_at or_reveal release_elsewhere reveal_auth bump_static_scene_revision
    activate_power_button
release_at-MayAct none hit times s a n h = ground arith
release_at-MayAct (some action) hit times s a n h =
    let (same, m) =
      may_act action times.activated_at times.confirmed_at s (find_button action s.power_buttons)
        refl a n h in
    (ap some same, subst (λ b. MayAct s b times.confirmed_at) same m)

clicked_lem :
    (pressed hovered : Option PowerAction) (a : PowerAction)
    → clicked pressed hovered ≡ some a
    → (pressed ≡ some a) × (hovered ≡ some a)
unfolding clicked
clicked_lem none hovered a h = cc h
clicked_lem (some p) hovered a h = elim (if_some (eq_option (some p) hovered) p a none h) [
  | inl (e, same) ↦ (ap some same, sym ((eq_option_iff (some p) hovered).0 e) ∙ ap some same)
  | inr k ↦ cc k
]

requested_unless :
    (c : Bool) (a : PowerAction) (x y : ShellState × Bool)
    → (if c then x else y).0.requested_power_action ≡ some a
    → x.0.requested_power_action ≡ none
    → (c ≡ false) × (y.0.requested_power_action ≡ some a)
requested_unless true a x y h n = cc (sym n ∙ h)
requested_unless false a x y h n = (refl, h)

clear_expired_requested :
    (now : Instant) (s : ShellState)
    → (clear_expired_power_confirmation now s).0.requested_power_action ≡ s.requested_power_action
unfolding clear_expired_power_confirmation
clear_expired_requested now s = ground arith

-- If nothing was requested before, a release requests a power action only if no password is being
-- checked, the button for this action was pressed and is still under the pointer, and, once an
-- expired confirmation is dropped, the click may act.
pub handle_pointer_release-MayAct :
    (hit : Hit) (times : ClickTimes) (s : ShellState) (a : PowerAction)
    → s.requested_power_action ≡ none
    → (handle_pointer_release hit times s).0.requested_power_action ≡ some a
    → (is_pending s.status ≡ false)
      × (s.power_button_pressed ≡ some a)
      × (hit.power_button ≡ some a)
      × MayAct (clear_expired_power_confirmation times.cleared_at s).0 a times.confirmed_at
unfolding handle_pointer_release handle_pointer_leave release_all
handle_pointer_release-MayAct hit times s a n h =
    let q = (clear_expired_power_confirmation times.cleared_at s).0 in
    let o = clicked s.power_button_pressed hit.power_button in
    let (idle_, k) =
      requested_unless (is_pending s.status) a (handle_pointer_leave s) (release_at o hit times q) h
        n in
    let (e, m) =
      release_at-MayAct o hit times q a (clear_expired_requested times.cleared_at s ∙ n) k in
    let (p, under) = clicked_lem s.power_button_pressed hit.power_button a e in (idle_, p, under, m)
