-- ===== src/Curtain/Attempts.antt =====
-- The curtain with its workers and the channel of their answers: CurtainApp's handlers, the threads of
-- `submit_password`, and the loop that drains `auth_events`.
use veila.Prelude.{
  ℕ, ◌+◌, ◌≤◌, ◌<◌, min, ◌≡◌, refl, sym, ap, subst, ◌∙◌, Bool, true, false, Option, none, some,
  List, [], ◌∷◌, ◌++◌, arith, length, length-append, nat_eq,
}
use veila.Clock.{Instant, u64_max}
use veila.Daemon.Messages.{DaemonMessage}
use veila.Daemon.Client.{Incoming}
use veila.Shell.Pointer.{Hit, ClickTimes}
use veila.Curtain.Interaction.{
  CurtainApp, KeyTimes, handle_shell_pointer_press, handle_shell_pointer_release, AuthEvent,
  accepted, rejected, busy, run_attempt, handle_auth_event, drain_auth_events, advance_input_repeat,
}
use veila.Curtain.Keyboard.{
  ControlEvent, drain_control_events, KeyEvent, PressTimes, press_key, repeat_key, release_key,
}
use veila.Curtain.Submissions.{submitted, Progress, IsNumbered, InOrder, flight}
use veila.Curtain.Inputs.{pointer_press-Progress, pointer_release-Progress, drain_control-Progress}
use veila.Curtain.Handlers.{
  press_key-Progress, repeat_key-Progress, release_key-Progress, input_repeat-Progress,
}

-- `ended` workers have ended; `channel` holds the answers that are not drained yet.
pub record World : Type 0 where
  pub app : CurtainApp
  pub ended : ℕ
  pub channel : List AuthEvent

abbrev pub sent : Option AuthEvent → List AuthEvent
sent none = []
sent (some event) = event ∷ []

-- A worker that ends without an answer sends nothing.
unfoldable pub end_worker : Bool → Incoming DaemonMessage → World → World
unfolding run_attempt
end_worker reached answer w = record w {
  ended = w.ended + 1;
  channel = w.channel ++ sent (run_attempt reached answer);
}

abbrev pub timed : List AuthEvent → (ℕ → KeyTimes) → List (AuthEvent × KeyTimes)
timed [] t = []
timed (event ∷ events) t = (event, t 0) ∷ timed events (λ n. t (n + 1))

unfoldable pub drain : (ℕ → KeyTimes) → World → World
unfolding drain_auth_events
drain t w = record w { app = drain_auth_events (timed w.channel t) w.app; channel = [] }

-- One handler, one worker that ends, or one draining of the channel.
pub data Step : World → World → Type 0 where
  key_pressed :
      (w : World) (controls : List ControlEvent) (event : KeyEvent) (t : PressTimes)
      (q : CurtainApp)
      → press_key controls event t w.app ≡ some q
      → Step w (record w { app = q })
  key_repeated :
      (w : World) (controls : List ControlEvent) (event : KeyEvent) (t : PressTimes)
      → Step w (record w { app = repeat_key controls event t w.app })
  key_released :
      (w : World) (controls : List ControlEvent) (event : KeyEvent)
      → Step w (record w { app = release_key controls event w.app })
  backspace_held :
      (w : World) (now : Instant) (t : KeyTimes) (q : CurtainApp)
      → advance_input_repeat now t w.app ≡ some q
      → Step w (record w { app = q })
  pointer_pressed :
      (w : World) (hit : Option Hit) (now : Instant)
      → Step w (record w { app = handle_shell_pointer_press hit now w.app })
  pointer_released :
      (w : World) (hit : Option Hit) (t : ClickTimes)
      → Step w (record w { app = handle_shell_pointer_release hit t w.app })
  controlled :
      (w : World) (controls : List ControlEvent)
      → Step w (record w { app = drain_control_events controls w.app })
  worker_ended :
      (w : World) (reached : Bool) (answer : Incoming DaemonMessage)
      → w.ended < length (submitted w.app)
      → Step w (end_worker reached answer w)
  drained : (w : World) (t : ℕ → KeyTimes) → Step w (drain t w)

pub data Reach : World → World → Type 0 where
  here : (w : World) → Reach w w
  next : (w v u : World) → Reach w v → Step v u → Reach w u

-- As many submissions as workers have ended, and one more while an answer is awaited, unless it lies in
-- the channel.
pub record IsPaced (w : World) : Type 0 where
  pub running : length (submitted w.app) + length w.channel ≤ w.ended + flight w.app.auth_in_flight
  pub numbered : IsNumbered w.app

-- A handler keeps the pace.
moved-IsPaced :
    (w : World) (q : CurtainApp) → Progress w.app q → IsPaced w → IsPaced (record w { app = q })
moved-IsPaced w q p i = record {
  running = omega (arith, i.running, p.counted);
  numbered = p.numbered i.numbered;
}

sent-le : (o : Option AuthEvent) → length (sent o) ≤ 1
sent-le none = omega arith
sent-le (some event) = omega arith

end_worker-IsPaced :
    (w : World) (reached : Bool) (answer : Incoming DaemonMessage)
    → IsPaced w
    → IsPaced (end_worker reached answer w)
unfolding end_worker
end_worker-IsPaced w reached answer i = record {
  running =
      let n = length-append w.channel (sent (run_attempt reached answer)) in
      omega (arith, i.running, n, sent-le (run_attempt reached answer));
  numbered = i.numbered;
}

-- What one answer does: it may end the wait.
pub record IsSettled (p q : CurtainApp) : Type 0 where
  pub same_log : submitted q ≡ submitted p
  same_id : q.next_auth_attempt_id ≡ p.next_auth_attempt_id
  released : flight p.auth_in_flight ≤ flight q.auth_in_flight + 1

flight-le : (b : Bool) (n : ℕ) → flight b ≤ n + 1
flight-le true n = omega arith
flight-le false n = omega arith

pub handle_auth_event-IsSettled :
    (event : AuthEvent) (t : KeyTimes) (p : CurtainApp) → IsSettled p (handle_auth_event event t p)
unfolding handle_auth_event
handle_auth_event-IsSettled (accepted _) t p = record {
  same_log = refl;
  same_id = refl;
  released = omega arith;
}
handle_auth_event-IsSettled (rejected _ _ _) t p = record {
  same_log = refl;
  same_id = refl;
  released = flight-le p.auth_in_flight 0;
}
handle_auth_event-IsSettled (busy _) t p = record {
  same_log = refl;
  same_id = refl;
  released = flight-le p.auth_in_flight 0;
}

settled-IsNumbered : (p q : CurtainApp) → IsSettled p q → IsNumbered p → IsNumbered q
settled-IsNumbered p q s n = record {
  next_id = s.same_id ∙ n.next_id ∙ ap (λ l. min (length l + 1) u64_max) (sym s.same_log);
  in_order = subst InOrder (sym s.same_log) n.in_order;
}

drain-IsPaced :
    (events : List AuthEvent) (t : ℕ → KeyTimes) (p : CurtainApp) (ended : ℕ)
    → length (submitted p) + length events ≤ ended + flight p.auth_in_flight
    → IsNumbered p
    → IsPaced (record { app = drain_auth_events (timed events t) p; ended = ended; channel = [] })
unfolding drain_auth_events
drain-IsPaced [] t p ended h n = record { running = h; numbered = n }
drain-IsPaced (event ∷ events) t p ended h n =
    let q = handle_auth_event event (t 0) p in
    let s = handle_auth_event-IsSettled event (t 0) p in
    drain-IsPaced events (λ n. t (n + 1)) q ended
      (omega (arith, h, s.released, ap length s.same_log)) (settled-IsNumbered p q s n)

Step-IsPaced : (w v : World) → Step w v → IsPaced w → IsPaced v
unfolding drain
Step-IsPaced w v (key_pressed _ controls event t q e) i =
    moved-IsPaced w q (press_key-Progress controls event t w.app q e) i
Step-IsPaced w v (key_repeated _ controls event t) i =
    moved-IsPaced w _ (repeat_key-Progress controls event t w.app) i
Step-IsPaced w v (key_released _ controls event) i =
    moved-IsPaced w _ (release_key-Progress controls event w.app) i
Step-IsPaced w v (backspace_held _ now t q e) i =
    moved-IsPaced w q (input_repeat-Progress now t w.app q e) i
Step-IsPaced w v (pointer_pressed _ hit now) i =
    moved-IsPaced w _ (pointer_press-Progress hit now w.app) i
Step-IsPaced w v (pointer_released _ hit t) i =
    moved-IsPaced w _ (pointer_release-Progress hit t w.app) i
Step-IsPaced w v (controlled _ controls) i =
    moved-IsPaced w _ (drain_control-Progress controls w.app) i
Step-IsPaced w v (worker_ended _ reached answer h) i = end_worker-IsPaced w reached answer i
Step-IsPaced w v (drained _ t) i = drain-IsPaced w.channel t w.app w.ended i.running i.numbered

-- From a start at which this holds, whatever keys, clicks, messages
-- and answers come, in whatever order: at most one worker runs, it runs only while an answer is
-- awaited and none lies in the channel, and the k-th submission carries the attempt id k, up to the
-- largest id.
pub Reach-IsPaced : (w v : World) → Reach w v → IsPaced w → IsPaced v
Reach-IsPaced w v (here _) i = i
Reach-IsPaced w v (next _ u _ r s) i = Step-IsPaced u v s (Reach-IsPaced w u r i)
