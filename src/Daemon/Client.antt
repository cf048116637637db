-- ===== src/Daemon/Client.antt =====
-- Messages from the curtain and the authentication worker:
-- crates/daemon/src/app/runtime/auth.rs, and `handle_auth_connection` of
-- crates/daemon/src/app/events/auth.rs.
use veila.Prelude.{ℕ, min, Bool, none, some, nat_eq}
use Prim.Native.String.{String}
use veila.Clock.{Instant, Duration, as_millis, u64_max}
use veila.Auth.State.{
  AuthAdmission, allowed, busy, rate_limited, admit, start_attempt, next_failed_attempts,
}
use veila.Suspend.{note_activity}
use veila.Daemon.Messages.{
  ClientMessage, submit_password, cancel_authentication, activity, request_power_action,
  DaemonMessage, authentication_accepted, authentication_rejected, authentication_busy, Failure,
  auth_channel, power_action, write_reply,
}
use veila.Daemon.Runtime.{
  Channel, AuthAttempt, Runtime, Result, ok, err, Handler, ◌>>=◌, ◌>>◌, return, answer, succeeded,
  emit, modify, start_worker, reply, request_power,
}

-- The times that the handler reads, one after the other, and how the writes and calls end.
pub record Delivery : Type 0 where
  pub noted_at : Instant
  pub started_at : Instant
  pub admitted_at : Instant
  pub written : Bool
  pub power_done : Bool

note : Instant → Handler (Unit {0})
unfolding note_activity
note now = modify (λ r. record r { suspend_state = note_activity r.suspend_state now })

write_daemon_message : Delivery → DaemonMessage → Handler (Unit {0})
write_daemon_message d m = do emit (reply m); succeeded d.written write_reply

-- `delay.as_millis().min(u128::from(u64::MAX)) as u64`
abbrev pub retry_millis : Duration → ℕ
retry_millis delay = min (as_millis delay) u64_max

start_worker_for : Delivery → ℕ → String → Channel → Handler (Unit {0})
unfolding next_failed_attempts start_attempt
start_worker_for d attempt_id secret sender r =
    (do
      modify (λ q. record q { auth_state = start_attempt q.auth_state })
      emit (
          start_worker (record {
            attempt_id = attempt_id;
            started_at = d.started_at;
            failed_attempts = next_failed_attempts r.auth_state;
            secret = secret;
            sender = sender;
            latency_report = r.active_latency_report;
          })))
      r

on_admission : AuthAdmission → Delivery → ℕ → String → Handler (Unit {0})
unfolding start_worker_for write_daemon_message
on_admission allowed d attempt_id secret r =
    (do sender ← answer r.auth_sender auth_channel; start_worker_for d attempt_id secret sender) r
on_admission busy d attempt_id secret r = write_daemon_message d (authentication_busy attempt_id) r
on_admission (rate_limited delay) d attempt_id secret r =
    write_daemon_message d
      (authentication_rejected attempt_id (some (retry_millis delay))
        (some r.auth_state.failed_attempts))
      r

unfoldable pub handle_client_message : Delivery → ClientMessage → Handler (Unit {0})
unfolding note on_admission admit
handle_client_message d activity = note d.noted_at
handle_client_message d (request_power_action action) = do
  note d.noted_at
  emit (request_power action)
  succeeded d.power_done power_action
handle_client_message d (submit_password attempt_id secret) = do
  note d.noted_at
  λ r. on_admission (admit r.auth_state d.admitted_at) d attempt_id secret r
handle_client_message d cancel_authentication = return tt

-- What came in on a connection: an error of reading or decoding, nothing, or a message.
pub data Incoming (M : Type 0) : Type 0 where
  unreadable : Failure → Incoming M
  closed : Incoming M
  received : M → Incoming M

-- A handler's error is only logged; an error of reading is passed on.
unfoldable pub logged : Result (Unit {0}) × Runtime → Result (Unit {0}) × Runtime
logged (_, r) = (ok tt, r)

unfoldable pub handle_auth_connection : Delivery → Incoming ClientMessage → Handler (Unit {0})
unfolding handle_client_message logged
handle_auth_connection d (unreadable e) r = (err e, r)
handle_auth_connection d closed r = (ok tt, r)
handle_auth_connection d (received m) r = logged (handle_client_message d m r)

-- How PAM ends, or that its worker was lost.
pub data PamOutcome : Type 0 where
  accepted rejected worker_failed : PamOutcome

pub data AuthResult : Type 0 where
  auth_succeeded : (attempt_id : ℕ) (started_at : Instant) (elapsed_ms : ℕ) → AuthResult
  auth_rejected : (attempt_id : ℕ) (started_at : Instant) (elapsed_ms : ℕ) → AuthResult

-- The worker's message to the client and its result for the daemon. A failed write or send is only
-- logged.
unfoldable pub run_auth_attempt : AuthAttempt → PamOutcome → ℕ → DaemonMessage × AuthResult
run_auth_attempt a accepted elapsed_ms =
    (authentication_accepted a.attempt_id, auth_succeeded a.attempt_id a.started_at elapsed_ms)
run_auth_attempt a rejected elapsed_ms = (
  authentication_rejected a.attempt_id none (some a.failed_attempts),
  auth_rejected a.attempt_id a.started_at elapsed_ms,
)
run_auth_attempt a worker_failed elapsed_ms = (
  authentication_rejected a.attempt_id none (some a.failed_attempts),
  auth_rejected a.attempt_id a.started_at elapsed_ms,
)
