-- ===== src/Lines.antt =====
-- The framing of messages on the sockets: `read_bounded_line` of crates/daemon/src/adapters/ipc.rs and
-- of crates/curtain/src/ipc, whose readers are dropped after one line. What the socket delivers is a list of reads, and the test for
-- UTF-8 is the argument `is_utf8`.
use veila.Prelude.{
  ℕ, zero, suc, ◌+◌, ◌-◌, ◌*◌, ◌/◌, ◌%◌, ◌^◌, ◌≤◌, ◌<◌, min, max, ◌≡◌, refl, sym, ap, subst, ◌∙◌,
  ◌≢◌, ◌↔◌, ◌⊎◌, inl, inr, Bool, true, false, not, ◌&&◌, ◌||◌, Option, none, some, List, [], ◌∷◌,
  ◌++◌, map, arith, ltb, leb, ◌==◌, if◌then◌else◌, ltb→lt, lt→ltb, leb→le, Bool-cases, and_parts,
  le→leb, lt→not_leb, le→not_ltb, not_ltb→le, some_inj, List-cases, Option-cases, is_some, or_else,
  length, get_elem?, get_elem?-some, length-append, set, is_empty, length-set, nat_eq, PartialEq,
  eq_option, eq_option_iff,
}
pub mod Framing
pub mod Reading
mod Examples
use mathlib.Core.Option

abbrev pub Byte : Type 0
Byte = ℕ

abbrev pub newline : Byte
newline = 10

abbrev pub max_line_bytes : ℕ
max_line_bytes = 64 * 1024

-- One read of the socket; a read of no bytes is the end of the stream.
pub data Read : Type 0 where
  chunk : List Byte → Read
  failed : Read

pub data LineResult : Type 0 where
  line : List Byte → LineResult
  closed : LineResult
  read_failed : LineResult
  ended_early : LineResult
  too_long : LineResult
  not_utf8 : LineResult

-- `bytes.iter().position(|byte| *byte == b'\n')`
unfoldable pub line_end : List Byte → Option ℕ
line_end [] = none
line_end (b ∷ bs) = if b == newline then some 0 else Option.map suc (line_end bs)

abbrev pub value_or : ℕ → Option ℕ → ℕ
value_or d none = d
value_or d (some n) = n

unfoldable pub consumed : List Byte → ℕ
unfolding line_end
consumed bytes = value_or (length bytes) (line_end bytes)

abbrev pub take : ℕ → List Byte → List Byte
take zero bytes = []
take (suc n) [] = []
take (suc n) (b ∷ bs) = b ∷ take n bs

-- `payload.push('\n')`
unfoldable pub framed : List Byte → List Byte
framed payload = payload ++ (newline ∷ [])

module _ (is_utf8 : List Byte → Bool) where
  -- `String::from_utf8`
  abbrev pub decoded : List Byte → LineResult
  decoded bytes = if is_utf8 bytes then line bytes else not_utf8

  abbrev pub at_end : List Byte → LineResult
  at_end [] = closed
  at_end (_ ∷ _) = ended_early

  -- The loop of the daemon's `read_bounded_line`, with the bytes of the line so far.
  unfoldable pub read_line : List Byte → List Read → LineResult
  unfolding line_end consumed
  read_line bytes [] = at_end bytes
  read_line bytes (failed ∷ reads) = read_failed
  read_line bytes (chunk [] ∷ reads) = at_end bytes
  read_line bytes (chunk (b ∷ bs) ∷ reads) =
      let rest = read_line (bytes ++ take (consumed (b ∷ bs)) (b ∷ bs)) reads in
      if ltb max_line_bytes (length bytes + consumed (b ∷ bs))
      then too_long
      else if is_some (line_end (b ∷ bs))
      then decoded (bytes ++ take (consumed (b ∷ bs)) (b ∷ bs))
      else rest

  unfoldable pub read_bounded_line : List Read → LineResult
  unfolding read_line
  read_bounded_line reads = read_line [] reads
