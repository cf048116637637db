-- ===== src/Curtain.antt =====
-- The curtain's timers: crates/curtain/src/state.
use veila.Prelude.{
  ℕ, zero, suc, ◌+◌, ◌-◌, ◌*◌, ◌/◌, ◌%◌, ◌^◌, ◌≤◌, ◌<◌, min, max, ◌≡◌, refl, sym, ap, subst, ◌∙◌,
  ◌≢◌, ◌↔◌, ◌⊎◌, inl, inr, Bool, true, false, not, ◌&&◌, ◌||◌, Option, none, some, List, [], ◌∷◌,
  ◌++◌, map, arith, ltb, leb, ◌==◌, if◌then◌else◌, ltb→lt, lt→ltb, leb→le, Bool-cases, and_parts,
  le→leb, lt→not_leb, le→not_ltb, not_ltb→le, branches, if_true, if_false, some_inj, List-cases,
  Option-cases, is_some, or_else, length, get_elem?, get_elem?-some, length-append, set, is_empty,
  length-set, nat_eq, PartialEq, eq_option, eq_option_iff,
}
pub mod ScreenOff
pub mod KeyRepeat
pub mod Slideshow
pub mod Resume
pub mod Interaction
pub mod Keyboard
pub mod Submissions
pub mod Inputs
pub mod Handlers
pub mod Attempts
pub mod Waiting
pub mod Guard
pub mod Clicks
pub mod Waking
mod Examples
