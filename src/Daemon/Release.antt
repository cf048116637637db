-- ===== src/Daemon/Release.antt =====
-- Which events may end a lock, and which may touch the throttling of password attempts.
use veila.Prelude.{◌≡◌, refl, ap, subst, Bool, true, false, arith, nat_eq}
use veila.LockState.{locked}
use veila.Daemon.Messages.{
  LatencyReportMode, ClientMessage, submit_password, cancel_authentication, activity,
  request_power_action, DaemonControlMessage, lock_now, stop, status, health, reload_config,
  ReloadSource,
}
use veila.Daemon.Runtime.{LoadedConfig, Runtime}
use veila.Daemon.Client.{
  auth_succeeded, auth_rejected, Delivery, Incoming, unreadable, closed, received,
  handle_auth_connection,
}
use veila.Daemon.Signals.{handle_lock_signal, handle_auth_result}
use veila.Daemon.Control.{
  Reload, ControlAnswers, auto_reload, choose_background, handle_control_connection,
  note_reload_error,
}
use veila.Suspend.Ticks.{suspend_check}
use veila.Daemon.Ticks.{
  TickReload, no_reload, load_failed, apply_config, TickReading, reading_of, reload_on_tick, tick,
}
use veila.Daemon.Loop.{
  lock_signal, unlock_signal, curtain_exit, auth_connection, auth_result, control, ticked,
  terminated, stopped, failed, auth_failed, control_failed, Pass, survives, ends,
}

-- What an event must leave alone while the session is locked.
pub record StaysLocked (r r' : Runtime) : Type 0 where
  pub still_locked : r'.state ≡ locked
  pub same_curtain : r'.curtain ≡ r.curtain
  pub same_sender : r'.auth_sender ≡ r.auth_sender

pub record SameThrottle (r r' : Runtime) : Type 0 where
  pub same_count : r'.auth_state.failed_attempts ≡ r.auth_state.failed_attempts
  pub same_deadline : r'.auth_state.retry_after ≡ r.auth_state.retry_after
  pub same_policy : r'.auth_state.policy ≡ r.auth_state.policy
  pub still_busy : r.auth_state.in_flight ≡ true → r'.auth_state.in_flight ≡ true

abbrev pub Both : Runtime → Runtime → Type 0
Both r r' = StaysLocked r r' × SameThrottle r r'

Both-connection :
    (d : Delivery) (m : Incoming ClientMessage) (r : Runtime)
    → r.state ≡ locked
    → Both r (handle_auth_connection d m r).1
unfolding handle_auth_connection
Both-connection d (unreadable e) r l = ground arith
Both-connection d closed r l = ground arith
Both-connection d (received activity) r l = ground arith
Both-connection d (received cancel_authentication) r l = ground arith
Both-connection d (received (request_power_action a)) r l = ground arith
Both-connection d (received (submit_password n s)) r l = ground arith

Both-control :
    (a : ControlAnswers) (m : Incoming DaemonControlMessage) (r : Runtime)
    → r.state ≡ locked
    → Both r (handle_control_connection a m r).1
unfolding handle_control_connection
Both-control a (unreadable e) r l = ground arith
Both-control a closed r l = ground arith
Both-control a (received stop) r l = ground arith
Both-control a (received status) r l = ground arith
Both-control a (received health) r l = ground arith
Both-control a (received reload_config) r l = ground arith
Both-control a (received (lock_now w f mode)) r l = ground arith

Both-auto_reload :
    (a : Reload) (c : LoadedConfig) (source : ReloadSource) (r : Runtime)
    → r.state ≡ locked
    → Both r (auto_reload a c source r)
unfolding auto_reload
Both-auto_reload a c source r l = ground arith

Both-reload_on_tick :
    (l : TickReload) (r : Runtime) → r.state ≡ locked → Both r (reload_on_tick l r)
unfolding reload_on_tick note_reload_error
Both-reload_on_tick no_reload r l = ground arith
Both-reload_on_tick (load_failed a source) r l = ground arith
Both-reload_on_tick (apply_config a c source) r l = Both-auto_reload a c source r l

-- The suspend state is no part of what must be left alone.
Both-tick : (t : TickReading) (r : Runtime) → r.state ≡ locked → Both r (tick t r).0
unfolding tick
Both-tick t r l =
    let checked = suspend_check r.suspend_state (reading_of t r) in
    let q = record r { suspend_state = checked.0 } in
    let (stays, throttle) = Both-reload_on_tick t.reload q l in
    (
      record {
        still_locked = stays.still_locked;
        same_curtain = stays.same_curtain;
        same_sender = stays.same_sender;
      },
      record {
        same_count = throttle.same_count;
        same_deadline = throttle.same_deadline;
        same_policy = throttle.same_policy;
        still_busy = throttle.still_busy;
      },
    )

module _ (mode : LatencyReportMode) where
  -- The passes that may end a lock: an unlock signal, the exit of the curtain, a successful
  -- authentication, and the two that shut the daemon down.
  unfoldable pub releases : {r r' : Runtime} → Pass mode r r' → Bool
  releases (survives (lock_signal r x seed now)) = false
  releases (survives (unlock_signal r y)) = true
  releases (survives (curtain_exit r x seed now h)) = true
  releases (survives (auth_connection r r' d m a l e)) = false
  releases (survives (auth_result r r' y (auth_succeeded n t e) now h p)) = true
  releases (survives (auth_result r r' y (auth_rejected n t e) now h p)) = false
  releases (survives (control r r' a m response e)) = false
  releases (survives (ticked r t)) = false
  releases (ends (terminated r y)) = true
  releases (ends (stopped r r' a m response y e)) = true
  releases (ends (failed r)) = false
  releases (ends (auth_failed r r' d m reason a l e)) = false
  releases (ends (control_failed r r' a m reason e)) = false

  -- The results of authentication attempts.
  unfoldable pub settles : {r r' : Runtime} → Pass mode r r' → Bool
  settles (survives (auth_result r r' y result now h p)) = true
  settles (survives (lock_signal r x seed now)) = false
  settles (survives (unlock_signal r y)) = false
  settles (survives (curtain_exit r x seed now h)) = false
  settles (survives (auth_connection r r' d m a l e)) = false
  settles (survives (control r r' a m response e)) = false
  settles (survives (ticked r t)) = false
  settles (ends e) = false

  Pass-locked-Both :
      {r r' : Runtime} (st : Pass mode r r')
      → r.state ≡ locked
      → releases st ≡ false
      → settles st ≡ false
      → Both r r'
  unfolding releases settles handle_lock_signal choose_background
  Pass-locked-Both (survives (lock_signal r x seed now)) l k s = ground arith
  Pass-locked-Both (survives (unlock_signal r y)) l k s = cc
  Pass-locked-Both (survives (curtain_exit r x seed now h)) l k s = cc
  Pass-locked-Both (survives (auth_connection r r' d m a h e)) l k s =
      subst (Both r) (ap (λ p. p.1) e) (Both-connection d m r l)
  Pass-locked-Both (survives (auth_result r r' y result now h p)) l k s = cc
  Pass-locked-Both (survives (control r r' a m response e)) l k s =
      subst (Both r) (ap (λ p. p.1) e) (Both-control a m r l)
  Pass-locked-Both (survives (ticked r t)) l k s = Both-tick t r l
  Pass-locked-Both (ends (terminated r y)) l k s = cc
  Pass-locked-Both (ends (stopped r r' a m response y e)) l k s = cc
  Pass-locked-Both (ends (failed r)) l k s = ground arith
  Pass-locked-Both (ends (auth_failed r r' d m reason a h e)) l k s =
      subst (Both r) (ap (λ p. p.1) e) (Both-connection d m r l)
  Pass-locked-Both (ends (control_failed r r' a m reason e)) l k s =
      subst (Both r) (ap (λ p. p.1) e) (Both-control a m r l)

  -- A locked session stays locked, under the same curtain and with the same authentication channel,
  -- through every pass of the event loop but an unlock signal, the exit of the curtain, a successful
  -- authentication, a request to stop the daemon, and the signals SIGINT and SIGTERM; so it does in
  -- the errors that end the loop.
  pub Pass-StaysLocked :
      {r r' : Runtime} (st : Pass mode r r')
      → r.state ≡ locked
      → releases st ≡ false
      → StaysLocked r r'
  unfolding releases settles handle_auth_result
  Pass-StaysLocked (survives (auth_result r r' y (auth_succeeded n t e) now h p)) l k = cc
  Pass-StaysLocked (survives (auth_result r r' y (auth_rejected n t e) now h p)) l k = ground arith
  Pass-StaysLocked (survives (lock_signal r x seed now)) l k =
      (Pass-locked-Both (survives (lock_signal r x seed now)) l k refl).0
  Pass-StaysLocked st l k = (Pass-locked-Both st l k refl).0

  -- While the session is locked no pass of the event loop but the result of an attempt, an unlock
  -- signal, the exit of the curtain, a request to stop the daemon, SIGINT and SIGTERM changes the
  -- count of failed attempts, the deadline of the throttle or its policy, or lets a second attempt in
  -- while one is in flight: not a lock request, not a reload, not an error that ends the loop.
  pub Pass-SameThrottle :
      {r r' : Runtime} (st : Pass mode r r')
      → r.state ≡ locked
      → releases st ≡ false
      → settles st ≡ false
      → SameThrottle r r'
  Pass-SameThrottle st l k s = (Pass-locked-Both st l k s).1
