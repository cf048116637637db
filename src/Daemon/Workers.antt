-- ===== src/Daemon/Workers.antt =====
-- Password submissions and the workers that check them.
use veila.Prelude.{
  ℕ, ◌+◌, ◌≤◌, ◌≡◌, refl, ◌∙◌, ◌≢◌, ◌⊎◌, inl, inr, true, none, some, List, [], ◌∷◌, arith,
  get_elem?, nat_eq,
}
use Prim.Native.String.{String}
use veila.Clock.{Instant}
use veila.Auth.State.{finish_failure, next_failed_attempts, admit, allowed}
use veila.Auth.Policy.{AuthPolicy}
use veila.Daemon.Messages.{
  ClientMessage, submit_password, cancel_authentication, activity, request_power_action,
  authentication_accepted, authentication_rejected,
}
use veila.Daemon.Runtime.{Runtime, AuthAttempt, Effect, start_worker, ok}
use veila.Daemon.Deactivation.{Shutdown}
use veila.Daemon.Client.{
  auth_rejected, auth_succeeded, PamOutcome, accepted, rejected, run_auth_attempt, Delivery,
  Incoming, unreadable, closed, received, handle_auth_connection, handle_client_message,
}
use veila.Daemon.Signals.{handle_auth_result}

abbrev is_worker : Effect → ℕ
is_worker (start_worker a) = 1
is_worker _ = 0

-- The workers that were started.
abbrev pub workers : List Effect → ℕ
workers [] = 0
workers (e ∷ es) = is_worker e + workers es

-- Connections on the authentication socket, one after the other.
unfoldable pub serve : List (Delivery × Incoming ClientMessage) → Runtime → Runtime
serve [] r = r
serve ((d, m) ∷ ms) r = serve ms (handle_auth_connection d m r).1

busy_step :
    (d : Delivery) (m : Incoming ClientMessage) (r : Runtime)
    → r.auth_state.in_flight ≡ true
    → let r' = (handle_auth_connection d m r).1 in
      (workers r'.log ≡ workers r.log) × (r'.auth_state.in_flight ≡ true)
unfolding handle_auth_connection
busy_step d (unreadable e) r b = ground arith
busy_step d closed r b = ground arith
busy_step d (received activity) r b = ground arith
busy_step d (received cancel_authentication) r b = ground arith
busy_step d (received (request_power_action a)) r b = ground arith
busy_step d (received (submit_password n s)) r b = ground arith

serve_step :
    (d : Delivery) (m : Incoming ClientMessage) (r : Runtime)
    → let r' = (handle_auth_connection d m r).1 in
      (workers r'.log ≡ workers r.log)
      ⊎ ((workers r'.log ≡ workers r.log + 1) × (r'.auth_state.in_flight ≡ true))
unfolding handle_auth_connection
serve_step d (unreadable e) r = ground arith
serve_step d closed r = ground arith
serve_step d (received activity) r = ground arith
serve_step d (received cancel_authentication) r = ground arith
serve_step d (received (request_power_action a)) r = ground arith
serve_step d (received (submit_password n s)) r = ground arith

serve_busy :
    (ms : List (Delivery × Incoming ClientMessage)) (r : Runtime)
    → r.auth_state.in_flight ≡ true
    → workers (serve ms r).log ≡ workers r.log
unfolding serve
serve_busy [] r b = refl
serve_busy ((d, m) ∷ ms) r b =
    let (same, still) = busy_step d m r b in
    serve_busy ms (handle_auth_connection d m r).1 still ∙ same

-- However many messages come in before a result is handled, at most one more worker is started.
pub workers-serve-le :
    (ms : List (Delivery × Incoming ClientMessage)) (r : Runtime)
    → workers (serve ms r).log ≤ workers r.log + 1
unfolding serve
workers-serve-le [] r = omega arith
workers-serve-le ((d, m) ∷ ms) r = elim (serve_step d m r) [
  | inl same ↦ omega (arith, same, workers-serve-le ms (handle_auth_connection d m r).1)
  | inr (one, b) ↦ omega (arith, one, serve_busy ms (handle_auth_connection d m r).1 b)
]

-- The worker tells the client and the daemon the same: both hear of success exactly when PAM
-- accepted, and otherwise both hear of a rejection, with the count of failures so far.
run_auth_attempt_agrees :
    (a : AuthAttempt) (o : PamOutcome) (elapsed_ms : ℕ)
    → let (message, result) = run_auth_attempt a o elapsed_ms in
      ((o ≡ accepted)
        × (message ≡ authentication_accepted a.attempt_id)
        × (result ≡ auth_succeeded a.attempt_id a.started_at elapsed_ms))
      ⊎ ((o ≢ accepted)
          × (message ≡ authentication_rejected a.attempt_id none (some a.failed_attempts))
          × (result ≡ auth_rejected a.attempt_id a.started_at elapsed_ms))
unfolding run_auth_attempt
run_auth_attempt_agrees a o elapsed_ms = ground arith

started_worker :
    (d : Delivery) (attempt_id : ℕ) (secret : String) (r r' : Runtime) (a : AuthAttempt)
    → admit r.auth_state d.admitted_at ≡ allowed
    → handle_client_message d (submit_password attempt_id secret) r ≡ (ok tt, r')
    → get_elem? r'.log 0 ≡ some (start_worker a)
    → (a.attempt_id ≡ attempt_id) × (a.failed_attempts ≡ next_failed_attempts r'.auth_state)
unfolding handle_client_message
started_worker d attempt_id secret r r' a ok' h e = ground arith

recorded_failure :
    (y : Shutdown) (auth_policy : AuthPolicy) (n : ℕ) (t : Instant) (ms : ℕ) (now : Instant)
    (r r' : Runtime)
    → handle_auth_result y auth_policy (auth_rejected n t ms) now r ≡ some r'
    → r'.auth_state.failed_attempts ≡ next_failed_attempts r.auth_state
unfolding handle_auth_result finish_failure next_failed_attempts
recorded_failure y auth_policy n t ms now r r' h = ground arith

-- The count of failures that a worker reports to the client when its password is wrong is the count
-- that the daemon then records, if nothing else changed the authentication state in between.
reported_count :
    (d : Delivery) (attempt_id : ℕ) (secret : String) (r r' : Runtime) (a : AuthAttempt)
    (y : Shutdown) (auth_policy : AuthPolicy) (now : Instant) (r'' : Runtime)
    → admit r.auth_state d.admitted_at ≡ allowed
    → handle_client_message d (submit_password attempt_id secret) r ≡ (ok tt, r')
    → get_elem? r'.log 0 ≡ some (start_worker a)
    → handle_auth_result y auth_policy (run_auth_attempt a rejected 0).1 now r' ≡ some r''
    → (run_auth_attempt a rejected 0).0
      ≡ authentication_rejected attempt_id none (some r''.auth_state.failed_attempts)
unfolding run_auth_attempt
reported_count d attempt_id secret r r' a y auth_policy now r'' ok' h e p =
    let started = started_worker d attempt_id secret r r' a ok' h e in
    let recorded = recorded_failure y auth_policy a.attempt_id a.started_at 0 now r' r'' p in cc
