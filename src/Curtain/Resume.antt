-- ===== src/Curtain/Resume.antt =====
-- The input that wakes a machine from suspend is swallowed: `ResumeInputState` of
-- crates/curtain/src/state/resume.rs.
use veila.Prelude.{◌+◌, Bool, true, false, Option, none, some, ltb, if◌then◌else◌, nat_eq}
use veila.Clock.{Instant, Duration}

pub record ResumeInputState : Type 0 where
  pub armed : Bool
  pub swallow_input_pending : Bool
  pub swallow_until : Option Instant

unfoldable pub new : ResumeInputState
new = record { armed = false; swallow_input_pending = false; swallow_until = none }

unfoldable pub arm : ResumeInputState → ResumeInputState
arm s = record { armed = true; swallow_input_pending = false; swallow_until = none }

unfoldable pub mark_resumed : ResumeInputState → ResumeInputState
mark_resumed s =
    if s.armed
    then record { armed = false; swallow_input_pending = true; swallow_until = none }
    else s

unfoldable pub clear_swallow_input : ResumeInputState → ResumeInputState
clear_swallow_input s = record s { swallow_input_pending = false }

unfoldable pub begin_grace_period : Instant → Duration → ResumeInputState → ResumeInputState
begin_grace_period now duration s = record s { swallow_until = some (now + duration) }

unfoldable pub until_active : Option Instant → Instant → ResumeInputState → ResumeInputState × Bool
until_active none now s = (s, false)
until_active (some deadline) now s =
    if ltb now deadline then (s, true) else (record s { swallow_until = none }, false)

unfoldable pub grace_period_active : Instant → ResumeInputState → ResumeInputState × Bool
unfolding until_active
grace_period_active now s = until_active s.swallow_until now s
