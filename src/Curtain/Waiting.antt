-- ===== src/Curtain/Waiting.antt =====
-- What an answer that comes, or does not come, makes of the curtain that waits for it.
use veila.Prelude.{
  ℕ, ◌+◌, ◌≤◌, ◌≡◌, refl, ap, ◌∙◌, Bool, true, false, none, List, [], ◌∷◌, ◌++◌, arith, length,
  nat_eq,
}
use veila.Daemon.Messages.{DaemonMessage}
use veila.Daemon.Client.{Incoming}
use veila.Daemon.Client
use veila.Curtain.Interaction.{
  CurtainApp, KeyTimes, AuthEvent, event_of, run_attempt, handle_auth_event, drain_auth_events,
}
use veila.Curtain.Submissions.{submitted, Progress, flight}
use veila.Curtain.Inputs.{pointer_press-Progress, pointer_release-Progress, drain_control-Progress}
use veila.Curtain.Handlers.{
  press_key-Progress, repeat_key-Progress, release_key-Progress, input_repeat-Progress,
}
use veila.Curtain.Attempts.{
  handle_auth_event-IsSettled, World, end_worker, timed, drain, Step, Reach, here, next,
  key_pressed, key_repeated, key_released, backspace_held, pointer_pressed, pointer_released,
  controlled, worker_ended, drained,
}

-- An answer is awaited, and the worker for it still runs.
pub record IsWaiting (w : World) : Type 0 where
  pub awaiting : w.app.auth_in_flight ≡ true
  pub unanswered : w.channel ≡ []
  pub running : length (submitted w.app) ≡ w.ended + 1

-- An answer is awaited, no worker runs that could send one, and these answers wait in the channel.
record IsStuck (n : ℕ) (answers : List AuthEvent) (w : World) : Type 0 where
  awaiting : w.app.auth_in_flight ≡ true
  unanswered : w.channel ≡ answers
  none_running : length (submitted w.app) ≤ w.ended
  submissions_so_far : length (submitted w.app) ≡ n

in_flight : (b : Bool) → 1 ≤ flight b → b ≡ true
in_flight true h = refl
in_flight false h = ground arith

moved-IsStuck :
    (n : ℕ) (answers : List AuthEvent) (w : World) (q : CurtainApp)
    → Progress w.app q
    → IsStuck n answers w
    → IsStuck n answers (record w { app = q })
moved-IsStuck n answers w q p i =
    let flying : 1 ≤ flight q.auth_in_flight =
      omega (arith, p.counted, p.grows, ap flight i.awaiting) in
    let awaiting = in_flight q.auth_in_flight flying in
    let same : length (submitted q) ≡ length (submitted w.app) =
      omega (arith, p.counted, p.grows, ap flight i.awaiting, ap flight awaiting) in
    record {
      awaiting = awaiting;
      unanswered = i.unanswered;
      none_running = omega (arith, same, i.none_running);
      submissions_so_far = same ∙ i.submissions_so_far;
    }

drained-IsStuck :
    (n : ℕ) (app : CurtainApp) (ended : ℕ) (channel : List AuthEvent) (t : ℕ → KeyTimes)
    → IsStuck n [] (record { app = app; ended = ended; channel = channel })
    → IsStuck n []
        (record { app = drain_auth_events (timed channel t) app; ended = ended; channel = [] })
unfolding drain_auth_events
drained-IsStuck n app ended [] t i = i
drained-IsStuck n app ended (event ∷ events) t i = cc (i.unanswered)

-- The steps that take answers from the channel.
unfoldable pub is_drain : {w v : World} → Step w v → Bool
is_drain (drained _ t) = true
is_drain _ = false

undrained-IsStuck :
    (n : ℕ) (answers : List AuthEvent) (w v : World) (st : Step w v)
    → is_drain st ≡ false
    → IsStuck n answers w
    → IsStuck n answers v
unfolding is_drain
undrained-IsStuck n answers w v (key_pressed _ controls event t q e) d i =
    moved-IsStuck n answers w q (press_key-Progress controls event t w.app q e) i
undrained-IsStuck n answers w v (key_repeated _ controls event t) d i =
    moved-IsStuck n answers w _ (repeat_key-Progress controls event t w.app) i
undrained-IsStuck n answers w v (key_released _ controls event) d i =
    moved-IsStuck n answers w _ (release_key-Progress controls event w.app) i
undrained-IsStuck n answers w v (backspace_held _ now t q e) d i =
    moved-IsStuck n answers w q (input_repeat-Progress now t w.app q e) i
undrained-IsStuck n answers w v (pointer_pressed _ hit now) d i =
    moved-IsStuck n answers w _ (pointer_press-Progress hit now w.app) i
undrained-IsStuck n answers w v (pointer_released _ hit t) d i =
    moved-IsStuck n answers w _ (pointer_release-Progress hit t w.app) i
undrained-IsStuck n answers w v (controlled _ controls) d i =
    moved-IsStuck n answers w _ (drain_control-Progress controls w.app) i
undrained-IsStuck n answers w v (worker_ended _ reached answer h) d i =
    absurd (omega (arith, h, i.none_running))
undrained-IsStuck n answers w v (drained _ t) d i = cc

Step-IsStuck : (n : ℕ) (w v : World) → Step w v → IsStuck n [] w → IsStuck n [] v
unfolding drain drain_auth_events is_drain
Step-IsStuck n w v (drained _ t) i = drained-IsStuck n w.app w.ended w.channel t i
Step-IsStuck n w v st i = undrained-IsStuck n [] w v st refl i

Reach-IsStuck : (n : ℕ) (w v : World) → Reach w v → IsStuck n [] w → IsStuck n [] v
Reach-IsStuck n w v (here _) i = i
Reach-IsStuck n w v (next _ u _ r s) i = Step-IsStuck n u v s (Reach-IsStuck n w u r i)

-- A defect: if a worker ends without an answer (the daemon cannot be reached, or its reply is missing,
-- cannot be read or cannot be decoded), then the curtain waits for ever. Whatever keys, clicks
-- and messages come after that, it goes on waiting and submits no further password.
pub lost_answer-waits :
    (w v : World) (reached : Bool) (answer : Incoming DaemonMessage)
    → IsWaiting w
    → run_attempt reached answer ≡ none
    → Reach (end_worker reached answer w) v
    → (v.app.auth_in_flight ≡ true) × (length (submitted v.app) ≡ length (submitted w.app))
unfolding end_worker
lost_answer-waits w v reached answer i e r =
    let s = Reach-IsStuck (length (submitted w.app)) (end_worker reached answer w) v r (record {
      awaiting = i.awaiting;
      unanswered = rw (i.unanswered, e);
      none_running = omega (arith, i.running);
      submissions_so_far = refl;
    }) in
    (s.awaiting, s.submissions_so_far)

-- A reply that refuses: a rejection, or that another attempt is under way.
abbrev pub refuses : DaemonMessage → Bool
refuses (DaemonMessage.authentication_accepted _) = false
refuses (DaemonMessage.authentication_rejected _ _ _) = true
refuses (DaemonMessage.authentication_busy _) = true

refusal_releases :
    (m : DaemonMessage) (t : KeyTimes) (p : CurtainApp)
    → refuses m ≡ true
    → (handle_auth_event (event_of m) t p).auth_in_flight ≡ false
unfolding event_of handle_auth_event
refusal_releases (DaemonMessage.authentication_accepted _) t p h = cc h
refusal_releases (DaemonMessage.authentication_rejected _ _ _) t p h = refl
refusal_releases (DaemonMessage.authentication_busy _) t p h = refl

-- What the curtain comes to while the channel is not drained.
pub data Undrained (start : World) : World → Type 0 where
  begin : Undrained start start
  then_step :
      {u v : World} → Undrained start u → (st : Step u v) → is_drain st ≡ false → Undrained start v

Undrained-IsStuck :
    (n : ℕ) (answers : List AuthEvent) {w u : World}
    → IsStuck n answers w
    → Undrained w u
    → IsStuck n answers u
Undrained-IsStuck n answers i begin = i
Undrained-IsStuck n answers i (then_step {u} {v} p st d) =
    undrained-IsStuck n answers u v st d (Undrained-IsStuck n answers i p)

-- If the daemon's reply arrives and refuses the attempt, then whatever keys, clicks and messages come
-- before the channel is drained, no further password is submitted; and once it is drained the curtain
-- no longer waits, so that it takes input again.
pub refusal-ends_wait :
    (w u : World) (m : DaemonMessage) (t : ℕ → KeyTimes)
    → IsWaiting w
    → refuses m ≡ true
    → Undrained (end_worker true (Client.received m) w) u
    → let v = drain t u in
      (length (submitted u.app) ≡ length (submitted w.app))
      × (v.app.auth_in_flight ≡ false)
      × (length (submitted v.app) ≡ length (submitted w.app))
unfolding end_worker drain run_attempt drain_auth_events
refusal-ends_wait w u m t i h p =
    let answers : List AuthEvent = event_of m ∷ [] in
    let s =
      Undrained-IsStuck (length (submitted w.app)) answers
        (record {
          awaiting = i.awaiting;
          unanswered = ap (λ c. c ++ answers) i.unanswered;
          none_running = omega (arith, i.running);
          submissions_so_far = refl;
        })
        p in
    let settled = handle_auth_event (event_of m) (t 0) u.app in
    let same : drain_auth_events (timed u.channel t) u.app ≡ settled =
      ap (λ c. drain_auth_events (timed c t) u.app) s.unanswered in
    let log = ap (λ q. length (submitted q)) same in
    let kept = ap length (handle_auth_event-IsSettled (event_of m) (t 0) u.app).same_log in
    (
      s.submissions_so_far,
      ap (λ q. q.auth_in_flight) same ∙ refusal_releases m (t 0) u.app h,
      omega (arith, log, kept, s.submissions_so_far),
    )
