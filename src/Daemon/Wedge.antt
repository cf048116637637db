-- ===== src/Daemon/Wedge.antt =====
-- A failure in the middle of locking or unlocking: the daemon counts a lock as active although no
-- curtain runs, and turns every request to lock away until an unlock signal comes.
use veila.Prelude.{ℕ, ◌≡◌, ap, subst, Bool, true, false, ◌&&◌, none, arith, is_some, nat_eq}
use veila.Clock.{Instant}
use veila.LockState.{unlocked, locking, is_active}
use veila.Auth.Policy.{AuthPolicy}
use veila.Suspend.Ticks.{suspend_check}
use veila.Daemon.Messages.{
  LatencyReportMode, DaemonControlMessage, lock_now, stop, status, health, reload_config,
}
use veila.Daemon.Runtime.{LoadedConfig, Runtime}
use veila.Daemon.Activation.{Startup, wait_failed, activate_lock, activate_and_install}
use veila.Daemon.Deactivation.{Shutdown, deactivate_lock}
use veila.Daemon.Client.{Incoming, unreadable, closed, received}
use veila.Daemon.Signals.{handle_lock_signal, handle_unlock_signal}
use veila.Daemon.Control.{
  ControlAnswers, handle_control_connection, choose_background, auto_reload, note_reload_error,
}
use veila.Daemon.Consistency.{IsFree}
use veila.Daemon.Ticks.{
  TickReload, no_reload, load_failed, apply_config, TickReading, reading_of, reload_on_tick, tick,
}
use veila.Daemon.Loop.{
  init, Step, lock_signal, unlock_signal, curtain_exit, auth_connection, auth_result, control,
  ticked, Reach, Reach-IsConsistent,
}

-- A lock counts as active and no curtain runs.
pub record IsWedged (r : Runtime) : Type 0 where
  pub counts_active : is_active r.state ≡ true
  pub unprotected : r.curtain ≡ none

-- The sockets are set up and the curtain is spawned.
abbrev pub is_set_up : Startup → Bool
is_set_up x =
    is_some x.notify_socket_path
    && is_some x.auth_socket_path
    && is_some x.control_socket_path
    && is_some x.notify_listener
    && is_some x.auth_listener
    && is_some x.spawned

-- If the sockets are set up and the curtain is spawned, but waiting for it fails, a lock signal to
-- an unlocked daemon leaves it wedged.
wait_failed-IsWedged :
    (x : Startup) (mode : LatencyReportMode) (auth_policy : AuthPolicy) (now : Instant)
    (r : Runtime)
    → r.state ≡ unlocked
    → r.curtain ≡ none
    → is_set_up x ≡ true
    → x.readiness ≡ wait_failed
    → IsWedged (handle_lock_signal x mode auth_policy now r)
unfolding handle_lock_signal activate_and_install activate_lock
wait_failed-IsWedged x mode auth_policy now r u n h w = ground arith

-- An unlock signal always gets a wedged daemon out: it is unlocked and holds nothing.
handle_unlock_signal-recovers :
    (y : Shutdown) (auth_policy : AuthPolicy) (r : Runtime)
    → IsWedged r
    → let r' = handle_unlock_signal y auth_policy r in (r'.state ≡ unlocked) × IsFree r'
unfolding handle_unlock_signal deactivate_lock
handle_unlock_signal-recovers y auth_policy r w = ground arith

-- The state after waiting for the curtain has failed: `locking`, with nothing of a lock held.
pub record IsLeftLocking (r : Runtime) : Type 0 where
  pub left_locking : r.state ≡ locking
  pub free : IsFree r

control-IsLeftLocking :
    (a : ControlAnswers) (m : Incoming DaemonControlMessage) (r : Runtime)
    → IsLeftLocking r
    → IsLeftLocking (handle_control_connection a m r).1
unfolding handle_control_connection
control-IsLeftLocking a (unreadable e) r l = ground arith
control-IsLeftLocking a closed r l = ground arith
control-IsLeftLocking a (received stop) r l = ground arith
control-IsLeftLocking a (received status) r l = ground arith
control-IsLeftLocking a (received health) r l = ground arith
control-IsLeftLocking a (received reload_config) r l = ground arith
control-IsLeftLocking a (received (lock_now w f mode)) r l = ground arith

reload_on_tick-IsLeftLocking :
    (l : TickReload) (r : Runtime) → IsLeftLocking r → IsLeftLocking (reload_on_tick l r)
unfolding reload_on_tick note_reload_error auto_reload
reload_on_tick-IsLeftLocking no_reload r i = i
reload_on_tick-IsLeftLocking (load_failed a source) r i = ground arith
reload_on_tick-IsLeftLocking (apply_config a c source) r i = ground arith

tick-IsLeftLocking : (t : TickReading) (r : Runtime) → IsLeftLocking r → IsLeftLocking (tick t r).0
unfolding tick
tick-IsLeftLocking t r i =
    let checked = suspend_check r.suspend_state (reading_of t r) in
    reload_on_tick-IsLeftLocking t.reload (record r { suspend_state = checked.0 }) (ground arith)

module _ (mode : LatencyReportMode) where
  unfoldable pub is_unlock : {r r' : Runtime} → Step mode r r' → Bool
  is_unlock (unlock_signal r y) = true
  is_unlock (lock_signal r x seed now) = false
  is_unlock (curtain_exit r x seed now h) = false
  is_unlock (auth_connection r r' d m a l e) = false
  is_unlock (auth_result r r' y result now h p) = false
  is_unlock (control r r' a m response e) = false
  is_unlock (ticked r t) = false

  -- What the daemon comes to without an unlock signal.
  pub data WithoutUnlock (start : Runtime) : Runtime → Type 0 where
    begin : WithoutUnlock start start
    then_step :
        {r r' : Runtime}
        → WithoutUnlock start r
        → (st : Step mode r r') → is_unlock st ≡ false
        → WithoutUnlock start r'

  Step-IsLeftLocking :
      {r r' : Runtime} (st : Step mode r r')
      → is_unlock st ≡ false
      → IsLeftLocking r
      → IsLeftLocking r'
  unfolding is_unlock handle_lock_signal choose_background
  Step-IsLeftLocking (lock_signal r x seed now) u i = ground arith
  Step-IsLeftLocking (unlock_signal r y) u i = cc
  Step-IsLeftLocking (curtain_exit r x seed now h) u i = absurd (ground arith)
  Step-IsLeftLocking (auth_connection r r' d m a l e) u i = absurd (ground arith)
  Step-IsLeftLocking (auth_result r r' y result now h p) u i = absurd (ground arith)
  Step-IsLeftLocking (control r r' a m response e) u i =
      subst IsLeftLocking (ap (λ p. p.1) e) (control-IsLeftLocking a m r i)
  Step-IsLeftLocking (ticked r t) u i = tick-IsLeftLocking t r i

  WithoutUnlock-IsLeftLocking :
      {start r : Runtime} → IsLeftLocking start → WithoutUnlock start r → IsLeftLocking r
  WithoutUnlock-IsLeftLocking i begin = i
  WithoutUnlock-IsLeftLocking i (then_step p st u) =
      Step-IsLeftLocking st u (WithoutUnlock-IsLeftLocking i p)

  wait_failed-IsLeftLocking :
      (x : Startup) (auth_policy : AuthPolicy) (now : Instant) (r : Runtime)
      → r.state ≡ unlocked
      → IsFree r
      → is_set_up x ≡ true
      → x.readiness ≡ wait_failed
      → IsLeftLocking (handle_lock_signal x mode auth_policy now r)
  unfolding handle_lock_signal activate_and_install activate_lock
  wait_failed-IsLeftLocking x auth_policy now r u f h w = ground arith

  -- A defect: once waiting for the curtain has failed, the daemon counts a lock as active and never
  -- locks again without an unlock signal. From any state that a freshly started daemon comes to and
  -- that is unlocked: if a lock signal sets up the sockets and spawns the curtain, but waiting for it
  -- fails, then through whatever passes follow that the loop survives, lock signals and lock requests
  -- included, the state stays `locking`, which counts as active, and there is no curtain, no socket
  -- and no channel, as long as no unlock signal comes.
  pub wait_failed-stays :
      (c : LoadedConfig) (x : Startup) (seed : ℕ) (now : Instant) {r r' : Runtime}
      → Reach mode (init c) r
      → r.state ≡ unlocked
      → is_set_up x ≡ true
      → x.readiness ≡ wait_failed
      → WithoutUnlock (handle_lock_signal x mode r.auth_policy now (choose_background seed r)) r'
      → (r'.state ≡ locking) × (is_active r'.state ≡ true) × IsFree r'
  unfolding choose_background
  wait_failed-stays c x seed now {r} p u h w q =
      let f = (Reach-IsConsistent mode c p).unlocked_free u in
      let i =
        WithoutUnlock-IsLeftLocking
          (wait_failed-IsLeftLocking x r.auth_policy now (choose_background seed r) (ground arith)
            (ground arith) h w)
          q in
      (i.left_locking, ground arith, i.free)
