-- ===== src/Daemon/Ticks.antt =====
-- The daemon's tick, `auto_reload_tick` of `run` in crates/daemon/src/app/mod.rs: it decides on a
-- suspend and then reloads a configuration that has changed. What the watcher has found and what the
-- new file holds are arguments.
use veila.Prelude.{
  ℕ, ◌+◌, ◌≤◌, ◌≡◌, refl, ap, ◌∙◌, ◌⊎◌, inl, inr, Bool, true, Option, List, [], ◌∷◌, arith,
  if◌then◌else◌, branches, nat_eq,
}
use veila.Clock.{Instant}
use veila.LockState.{is_active}
use veila.Suspend.{BatterySnapshot}
use veila.Suspend.Ticks.{
  Reading, TickEffect, suspend_check, requests, suspend_check_requested, suspend_check_request,
  is_request-le,
}
use veila.Daemon.Messages.{ReloadSource, load_config}
use veila.Daemon.Runtime.{LoadedConfig, Runtime}
use veila.Daemon.Control.{Reload, auto_reload, note_reload_error}

-- Nothing to reload (no change, or one that is ignored), a new file that cannot be loaded, or a new
-- configuration to apply.
pub data TickReload : Type 0 where
  no_reload : TickReload
  load_failed : Reload → ReloadSource → TickReload
  apply_config : Reload → LoadedConfig → ReloadSource → TickReload

-- What a tick gets from outside.
pub record TickReading : Type 0 where
  pub now : Instant
  pub battery : Option BatterySnapshot
  pub media : Bool
  pub reload : TickReload

unfoldable pub reading_of : TickReading → Runtime → Reading
reading_of t r = record {
  now = t.now;
  active_lock = is_active (r.state);
  in_flight = r.auth_state.in_flight;
  battery = t.battery;
  media = t.media;
}

unfoldable pub reload_on_tick : TickReload → Runtime → Runtime
reload_on_tick no_reload r = r
reload_on_tick (load_failed a source) r = note_reload_error a source load_config r
reload_on_tick (apply_config a c source) r = auto_reload a c source r

unfoldable pub tick : TickReading → Runtime → Runtime × TickEffect
tick t r =
    let checked = suspend_check (r.suspend_state) (reading_of t r) in
    (reload_on_tick (t.reload) (record r { suspend_state = checked.0 }), checked.1)

-- The effects of ticks in a row.
unfoldable pub ticks : Runtime → List TickReading → List TickEffect
ticks r [] = []
ticks r (t ∷ ts) = let q = tick t r in q.1 ∷ ticks (q.0) ts

abbrev is_applied : TickReload → ℕ
is_applied no_reload = 0
is_applied (load_failed a source) = 0
is_applied (apply_config a c source) = 1

abbrev pub reloads : List TickReading → ℕ
reloads [] = 0
reloads (t ∷ ts) = is_applied (t.reload) + reloads ts

-- Only a new configuration touches the suspend.
reload_keeps_suspend :
    (l : TickReload) (r : Runtime)
    → ((reload_on_tick l r).suspend_state ≡ r.suspend_state) ⊎ (is_applied l ≡ 1)
unfolding reload_on_tick note_reload_error
reload_keeps_suspend no_reload r = inl refl
reload_keeps_suspend (load_failed a source) r = inl refl
reload_keeps_suspend (apply_config a c source) r = inr refl

requests-bound :
    (r : Runtime) (ts : List TickReading)
    → (requests (ticks r ts) ≤ 1 + reloads ts)
      × (r.suspend_state.suspend_requested ≡ true → requests (ticks r ts) ≤ reloads ts)
unfolding ticks tick
requests-bound r [] = (omega arith, λ _. omega arith)
requests-bound r (t ∷ ts) =
    let checked = suspend_check (r.suspend_state) (reading_of t r) in
    let q = (tick t r).0 in
    let (any, done) = requests-bound q ts in
    let one = is_request-le (checked.1) in
    let after_requested : checked.0.suspend_requested ≡ true
        → requests (ticks q ts) ≤ is_applied (t.reload) + reloads ts =
      λ h. elim (reload_keeps_suspend (t.reload) (record r { suspend_state = checked.0 })) [
        | inl e ↦ omega (arith, done (ap (λ s. s.suspend_requested) e ∙ h))
        | inr e ↦ omega (arith, any, e)
      ] in
    (
      elim (suspend_check_request (r.suspend_state) (reading_of t r)) [
        | inl h ↦ omega (arith, one, after_requested h)
        | inr h ↦ omega (arith, h, any)
      ],
      λ h.
          let (still, silent) = suspend_check_requested (r.suspend_state) (reading_of t r) h in
          omega (arith, silent, after_requested still),
    )

-- A suspend may be requested that no reload gives reason for.
abbrev pub unasked : Runtime → ℕ
unasked r = if r.suspend_state.suspend_requested then 0 else 1

-- However many ticks pass with no other event between them, and whatever they read, they request at
-- most one suspend more than the new configurations that they apply, and no more than these if a
-- suspend has been requested before.
pub requests-ticks-le :
    (r : Runtime) (ts : List TickReading) → requests (ticks r ts) ≤ unasked r + reloads ts
requests-ticks-le r ts =
    let (any, done) = requests-bound r ts in
    branches (λ (n : ℕ). requests (ticks r ts) ≤ n + reloads ts) r.suspend_state.suspend_requested 0
      1 (λ e. omega (arith, done e)) (λ _. any)
