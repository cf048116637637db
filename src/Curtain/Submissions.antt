-- ===== src/Curtain/Submissions.antt =====
-- What each input can submit.
use veila.Prelude.{
  ℕ, suc, ◌+◌, ◌≤◌, min, ◌≡◌, refl, sym, ap, subst, ◌∙◌, ◌⊎◌, inl, inr, Bool, true, false, not,
  ◌&&◌, Option, none, some, List, [], ◌∷◌, arith, if◌then◌else◌, Bool-cases, branches, length,
  is_empty, nat_eq,
}
use veila.Clock.{u64_max, saturating_add_u64}
use veila.Background.{FilePath}
use veila.Shell.{Char, ShellState, ShellKey, ShellAction, nothing, submit, power}
use veila.Shell.Keys.{handle_key}
use veila.Curtain.Interaction.{
  Effect, submit_password, notify_activity, request_power_action, CurtainApp, KeyTimes, start,
  send_secret, act_on_key, handle_shell_key,
}

-- The passwords that were handed to a worker, the last first.
unfoldable pub submissions : List Effect → List (FilePath × ℕ × List Char)
submissions [] = []
submissions (submit_password path attempt_id secret ∷ log) =
    (path, attempt_id, secret) ∷ submissions log
submissions (notify_activity _ ∷ log) = submissions log
submissions (request_power_action _ _ ∷ log) = submissions log

abbrev pub submitted : CurtainApp → List (FilePath × ℕ × List Char)
submitted app = submissions app.started

-- What one key does about submissions.
pub data Outcome (p q : CurtainApp) : Type 0 where
  quiet :
      submitted q ≡ submitted p
      → q.auth_in_flight ≡ p.auth_in_flight
      → q.next_auth_attempt_id ≡ p.next_auth_attempt_id
      → Outcome p q
  submits :
      (path : FilePath) (secret : List Char)
      → p.auth_in_flight ≡ false
      → p.daemon_socket ≡ some path
      → (p.allow_empty_password ≡ true) ⊎ (is_empty secret ≡ false)
      → submitted q ≡ (path, p.next_auth_attempt_id, secret) ∷ submitted p
      → q.auth_in_flight ≡ true
      → q.next_auth_attempt_id ≡ saturating_add_u64 p.next_auth_attempt_id 1
      → Outcome p q

send_secret-Outcome :
    (socket : Option FilePath) (secret : List Char) (t : KeyTimes) (p : CurtainApp)
    → p.auth_in_flight ≡ false
    → p.daemon_socket ≡ socket
    → (p.allow_empty_password ≡ true) ⊎ (is_empty secret ≡ false)
    → Outcome p (send_secret socket secret t p)
unfolding send_secret start submissions
send_secret-Outcome none secret t p free e a = quiet refl refl refl
send_secret-Outcome (some path) secret t p free e a = submits path secret free e a refl refl refl

may_send :
    (allowed empty : Bool) → (not allowed && empty) ≡ false → (allowed ≡ true) ⊎ (empty ≡ false)
may_send true empty h = inl refl
may_send false empty h = inr h

act_on_key-Outcome :
    (action : ShellAction) (t : KeyTimes) (p : CurtainApp)
    → p.auth_in_flight ≡ false
    → Outcome p (act_on_key action t p)
unfolding act_on_key
act_on_key-Outcome nothing t p free = quiet refl refl refl
act_on_key-Outcome (power _) t p free = quiet refl refl refl
act_on_key-Outcome (submit secret) t p free =
    elim (Bool-cases (not p.allow_empty_password && is_empty secret)) [
      | inl e ↦ rw (e) (quiet refl refl refl)
      | inr e ↦ rw (e) (
          send_secret-Outcome p.daemon_socket secret t p free refl
            (may_send p.allow_empty_password (is_empty secret) e))
    ]

relabel :
    (shell : ShellState) (p q : CurtainApp)
    → Outcome (record p { ui_shell = shell }) q
    → Outcome p q
relabel shell p q (quiet e f g) = quiet e f g
relabel shell p q (submits path secret free e a f g h) = submits path secret free e a f g h

-- A key submits at most one password: only while no answer is awaited and there is a socket, under the
-- next attempt id, which is then used up, and never an empty password unless the configuration
-- allows it; after that an answer is awaited. Otherwise the key submits nothing and leaves the
-- attempt id and the wait for an answer as they are.
pub handle_shell_key-Outcome :
    (key : ShellKey) (t : KeyTimes) (p : CurtainApp) → Outcome p (handle_shell_key key t p)
unfolding handle_shell_key
handle_shell_key-Outcome key t p =
    let (shell, action) = handle_key key t.now t.started_at p.ui_shell in
    branches (Outcome p) p.auth_in_flight p _ (λ _. quiet refl refl refl)
      (λ free.
        relabel shell p (act_on_key action t (record p { ui_shell = shell }))
          (act_on_key-Outcome action t (record p { ui_shell = shell }) free))

abbrev pub flight : Bool → ℕ
flight b = if b then 1 else 0

-- The k-th submission has the attempt id k, as long as ids last.
unfoldable pub InOrder : List (FilePath × ℕ × List Char) → Type 0
InOrder [] = Unit
InOrder ((_, attempt_id, _) ∷ log) = (attempt_id ≡ min (length log + 1) u64_max) × InOrder log

pub record IsNumbered (p : CurtainApp) : Type 0 where
  pub next_id : p.next_auth_attempt_id ≡ min (length (submitted p) + 1) u64_max
  pub in_order : InOrder (submitted p)

-- Submissions are only added, each new one has begun a wait for its answer, and the ids go on in order.
pub record Progress (p q : CurtainApp) : Type 0 where
  pub counted :
      length (submitted q) + flight p.auth_in_flight
      ≤ length (submitted p) + flight q.auth_in_flight
  pub grows : length (submitted p) ≤ length (submitted q)
  pub numbered : IsNumbered p → IsNumbered q

pub same-Progress :
    (p q : CurtainApp)
    → submitted q ≡ submitted p
    → q.auth_in_flight ≡ p.auth_in_flight
    → q.next_auth_attempt_id ≡ p.next_auth_attempt_id
    → Progress p q
same-Progress p q e f g = record {
  counted = omega (arith, ap length e, ap flight f);
  grows = omega (arith, ap length e);
  numbered = λ n. record {
    next_id = g ∙ n.next_id ∙ ap (λ l. min (length l + 1) u64_max) (sym e);
    in_order = subst InOrder (sym e) n.in_order;
  };
}

pub Progress-trans : (p q r : CurtainApp) → Progress p q → Progress q r → Progress p r
Progress-trans p q r a b = record {
  counted = omega (arith, a.counted, b.counted);
  grows = omega (arith, a.grows, b.grows);
  numbered = λ n. b.numbered (a.numbered n);
}

next_number : (l k : ℕ) → k ≡ min (l + 1) u64_max → saturating_add_u64 k 1 ≡ min (suc l + 1) u64_max
next_number l k h = ground arith

pub Outcome-Progress : (p q : CurtainApp) → Outcome p q → Progress p q
unfolding InOrder
Outcome-Progress p q (quiet e f g) = same-Progress p q e f g
Outcome-Progress p q (submits path secret free socket a e f g) = record {
  counted = omega (arith, ap length e, ap flight f, ap flight free);
  grows = omega (arith, ap length e);
  numbered = λ n. record {
    next_id =
        g
        ∙ next_number (length (submitted p)) p.next_auth_attempt_id n.next_id
        ∙ ap (λ l. min (length l + 1) u64_max) (sym e);
    in_order = subst InOrder (sym e) (n.next_id, n.in_order);
  };
}
