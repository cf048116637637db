-- ===== src/Lines/Framing.antt =====
-- What both readers make of the bytes that arrive, however these are cut into reads.
use veila.Prelude.{
  ◌≤◌, ◌<◌, ◌≡◌, refl, ◌∙◌, inl, inr, Bool, true, false, ◌||◌, List, [], ◌∷◌, ◌++◌, arith, ltb,
  ◌==◌, if◌then◌else◌, lt→ltb, Bool-cases, le→not_ltb, is_some, length, length-append, nat_eq,
}
use veila.Lines.{
  Byte, newline, max_line_bytes, Read, chunk, failed, LineResult, read_failed, too_long, line_end,
  consumed, take, decoded, at_end,
}

-- How the stream of bytes ends.
pub data Ending : Type 0 where
  ended : Ending
  broken : Ending

-- The bytes that arrive before the end of the stream, and how it ends.
unfoldable pub received : List Read → List Byte × Ending
received [] = ([], ended)
received (failed ∷ reads) = ([], broken)
received (chunk [] ∷ reads) = ([], ended)
received (chunk (b ∷ bs) ∷ reads) =
    let (bytes, ending) = received reads in ((b ∷ bs) ++ bytes, ending)

unfoldable pub has_newline : List Byte → Bool
has_newline [] = false
has_newline (b ∷ bs) = b == newline || has_newline bs

unfoldable pub before_newline : List Byte → List Byte
before_newline [] = []
before_newline (b ∷ bs) = if b == newline then [] else b ∷ before_newline bs

module _ (is_utf8 : List Byte → Bool) where
  unfoldable pub unfinished : List Byte → Ending → LineResult
  unfinished bytes ended = at_end is_utf8 bytes
  unfinished bytes broken = read_failed

  -- The first line of a stream, without regard to the reads.
  unfoldable pub first_line : List Byte → Ending → LineResult
  unfolding has_newline before_newline unfinished
  first_line bytes ending =
      if ltb max_line_bytes (length (before_newline bytes))
      then too_long
      else if has_newline bytes
      then decoded is_utf8 (before_newline bytes)
      else unfinished bytes ending

pub has_newline-append :
    (xs ys : List Byte) → has_newline (xs ++ ys) ≡ (has_newline xs || has_newline ys)
unfolding has_newline
has_newline-append [] ys = refl
has_newline-append (x ∷ xs) ys = ground (arith, has_newline-append xs ys)

pub before_newline-append :
    (xs ys : List Byte)
    → before_newline (xs ++ ys)
      ≡ (if has_newline xs then before_newline xs else xs ++ before_newline ys)
unfolding has_newline before_newline
before_newline-append [] ys = refl
before_newline-append (x ∷ xs) ys = ground (arith, before_newline-append xs ys)

pub line_end-has_newline : (xs : List Byte) → is_some (line_end xs) ≡ has_newline xs
unfolding line_end has_newline
line_end-has_newline [] = refl
line_end-has_newline (x ∷ xs) = ground (arith, line_end-has_newline xs)

pub consumed-length : (xs : List Byte) → consumed xs ≡ length (before_newline xs)
unfolding consumed line_end before_newline
consumed-length [] = refl
consumed-length (x ∷ xs) = ground (arith, consumed-length xs)

pub take-consumed : (xs : List Byte) → take (consumed xs) xs ≡ before_newline xs
unfolding consumed line_end before_newline
take-consumed [] = refl
take-consumed (x ∷ xs) = ground (arith, take-consumed xs)

pub before_newline-whole : (xs : List Byte) → has_newline xs ≡ false → before_newline xs ≡ xs
unfolding has_newline before_newline
before_newline-whole [] h = refl
before_newline-whole (x ∷ xs) h = ground (arith, h, before_newline-whole xs)

-- What stands before the newline in a stream whose beginning has none.
pub before_newline-extended :
    (xs ys : List Byte)
    → has_newline xs ≡ false
    → before_newline (xs ++ ys) ≡ xs ++ before_newline ys
before_newline-extended xs ys h = before_newline-append xs ys ∙ rw (h)

module _ (is_utf8 : List Byte → Bool) (ending : Ending) where
  pub first_line-too_long :
      (bytes : List Byte)
      → max_line_bytes < length (before_newline bytes)
      → first_line is_utf8 bytes ending ≡ too_long
  unfolding first_line
  first_line-too_long bytes h = rw (lt→ltb max_line_bytes (length (before_newline bytes)) h)

  pub first_line-found :
      (bytes : List Byte)
      → length (before_newline bytes) ≤ max_line_bytes
      → has_newline bytes ≡ true
      → first_line is_utf8 bytes ending ≡ decoded is_utf8 (before_newline bytes)
  unfolding first_line
  first_line-found bytes h e = rw (le→not_ltb (length (before_newline bytes)) max_line_bytes h, e)

  pub first_line-unfinished :
      (bytes : List Byte)
      → length bytes ≤ max_line_bytes
      → has_newline bytes ≡ false
      → first_line is_utf8 bytes ending ≡ unfinished is_utf8 bytes ending
  unfolding first_line
  first_line-unfinished bytes h e =
      rw (before_newline-whole bytes e, le→not_ltb (length bytes) max_line_bytes h, e)

pub before_newline-le :
    (xs ys : List Byte) → length (before_newline xs) ≤ length (before_newline (xs ++ ys))
before_newline-le xs ys = elim (Bool-cases (has_newline xs)) [
  | inl e ↦ rw (before_newline-append xs ys, e) (omega arith)
  | inr e ↦
      rw (before_newline-append xs ys, e, before_newline-whole xs e)
        (omega (arith, length-append xs (before_newline ys)))
]

pub before_newline-cut :
    (xs ys zs : List Byte)
    → has_newline xs ≡ false
    → has_newline ys ≡ true
    → before_newline (xs ++ (ys ++ zs)) ≡ xs ++ before_newline ys
before_newline-cut xs ys zs h e =
    before_newline-extended xs (ys ++ zs) h ∙ rw (before_newline-append ys zs, e)
