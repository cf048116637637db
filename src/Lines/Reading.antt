-- ===== src/Lines/Reading.antt =====
-- What `read_bounded_line` makes of the bytes that arrive, however these are cut into reads.
use veila.Prelude.{
  ◌+◌, ◌≤◌, ◌≡◌, refl, sym, ap, ◌∙◌, inl, inr, Bool, true, false, List, [], ◌∷◌, ◌++◌, arith, ltb,
  if◌then◌else◌, ltb→lt, Bool-cases, not_ltb→le, is_some, length, length-append, nat_eq,
}
use mathlib.Core.List.{append_assoc, append-nil}
use veila.Lines.{
  Byte, newline, max_line_bytes, Read, chunk, failed, LineResult, line, read_failed, too_long,
  line_end, consumed, take, read_line, read_bounded_line, decoded, at_end, framed,
}
use veila.Lines.Framing.{
  Ending, ended, broken, received, has_newline, before_newline, unfinished, first_line,
  has_newline-append, line_end-has_newline, consumed-length, take-consumed, before_newline-whole,
  first_line-too_long, first_line-found, first_line-unfinished, before_newline-le,
  before_newline-cut, before_newline-extended,
}

-- A line whose end has not been read yet.
record IsPrefix (bytes : List Byte) : Type 0 where
  unended : has_newline bytes ≡ false
  fits : length bytes ≤ max_line_bytes

module _ (is_utf8 : List Byte → Bool) where
  at_end-first_line :
      (bytes : List Byte)
      → IsPrefix bytes
      → at_end is_utf8 bytes ≡ first_line is_utf8 (bytes ++ []) ended
  unfolding unfinished
  at_end-first_line bytes p = sym (
      ap (λ l. first_line is_utf8 l ended) (append-nil bytes)
      ∙ first_line-unfinished is_utf8 ended bytes p.fits p.unended)

  broken-first_line :
      (bytes : List Byte) → IsPrefix bytes → read_failed ≡ first_line is_utf8 (bytes ++ []) broken
  unfolding unfinished
  broken-first_line bytes p = sym (
      ap (λ l. first_line is_utf8 l broken) (append-nil bytes)
      ∙ first_line-unfinished is_utf8 broken bytes p.fits p.unended)

  first_line-cut :
      (ending : Ending) (bytes xs rest : List Byte)
      → IsPrefix bytes
      → length bytes + length (before_newline xs) ≤ max_line_bytes
      → has_newline xs ≡ true
      → first_line is_utf8 (bytes ++ (xs ++ rest)) ending
        ≡ decoded is_utf8 (bytes ++ before_newline xs)
  first_line-cut ending bytes xs rest p under e =
      let same = before_newline-cut bytes xs rest p.unended e in
      first_line-found is_utf8 ending (bytes ++ (xs ++ rest))
        (omega (arith, under, ap length same, length-append bytes (before_newline xs)))
        (has_newline-append bytes (xs ++ rest)
          ∙ rw (p.unended) (has_newline-append xs rest ∙ rw (e)))
      ∙ ap (decoded is_utf8) same

  -- The three ways in which a loop goes on after a read of `xs`, for what the stream still holds.
  chunk-first_line :
      (bytes xs rest : List Byte) (ending : Ending) (more : List Byte → LineResult)
      → IsPrefix bytes
      → (IsPrefix (bytes ++ xs)
          → more (bytes ++ xs) ≡ first_line is_utf8 ((bytes ++ xs) ++ rest) ending)
      → (if ltb max_line_bytes (length bytes + consumed xs)
          then too_long
          else if is_some (line_end xs)
          then decoded is_utf8 (bytes ++ take (consumed xs) xs)
          else more (bytes ++ take (consumed xs) xs))
        ≡ first_line is_utf8 (bytes ++ (xs ++ rest)) ending
  chunk-first_line bytes xs rest ending more p h =
      let stream = bytes ++ (xs ++ rest) in
      let before = before_newline-extended bytes (xs ++ rest) p.unended in
      let size = length-append bytes (before_newline (xs ++ rest)) in
      rw (line_end-has_newline xs, take-consumed xs, consumed-length xs)
        (elim (Bool-cases (ltb max_line_bytes (length bytes + length (before_newline xs)))) [
          | inl big ↦
              let over = ltb→lt max_line_bytes (length bytes + length (before_newline xs)) big in
              rw (big) (
                sym (
                  first_line-too_long is_utf8 ending stream
                    (omega (arith, over, ap length before, size, before_newline-le xs rest))))
          | inr small ↦
              let under =
                not_ltb→le (length bytes + length (before_newline xs)) max_line_bytes small in
              elim (Bool-cases (has_newline xs)) [
                | inl e ↦ rw (small, e) (sym (first_line-cut ending bytes xs rest p under e))
                | inr e ↦
                    rw (small, e)
                      (ap (λ l. more (bytes ++ l)) (before_newline-whole xs e)
                        ∙ h (record {
                          unended = has_newline-append bytes xs ∙ rw (p.unended, e);
                          fits = omega (
                            arith,
                            under,
                            length-append bytes xs,
                            ap length (before_newline-whole xs e),
                          );
                        })
                        ∙ ap (λ l. first_line is_utf8 l ending) (append_assoc bytes xs rest))
              ]
        ])

  read_line-first_line :
      (reads : List Read) (bytes : List Byte)
      → IsPrefix bytes
      → read_line is_utf8 bytes reads
        ≡ first_line is_utf8 (bytes ++ (received reads).0) (received reads).1
  unfolding read_line received
  read_line-first_line [] bytes p = at_end-first_line bytes p
  read_line-first_line (failed ∷ reads) bytes p = broken-first_line bytes p
  read_line-first_line (chunk [] ∷ reads) bytes p = at_end-first_line bytes p
  read_line-first_line (chunk (b ∷ bs) ∷ reads) bytes p =
      let xs = b ∷ bs in
      chunk-first_line bytes xs (received reads).0 (received reads).1
        (λ l. read_line is_utf8 l reads) p (read_line-first_line reads (bytes ++ xs))

  -- The line that the daemon reads, or its error, is a function of the bytes that arrive and of the way
  -- in which the stream ends, and not of the reads: what stands before the first newline if it is at
  -- most the limit, and else an error, as is a stream that ends within a line or is not UTF-8. The
  -- bytes that follow the line do not matter.
  pub read_bounded_line-first_line :
      (reads : List Read)
      → read_bounded_line is_utf8 reads ≡ first_line is_utf8 (received reads).0 (received reads).1
  unfolding read_bounded_line has_newline
  read_bounded_line-first_line reads =
      read_line-first_line reads [] (record { unended = refl; fits = omega arith })

  framed-first_line :
      (ending : Ending) (message after : List Byte)
      → IsPrefix message
      → is_utf8 message ≡ true
      → first_line is_utf8 (framed message ++ after) ending ≡ line message
  unfolding framed has_newline before_newline
  framed-first_line ending message after p utf8 =
      ap (λ l. first_line is_utf8 l ending) (append_assoc message (newline ∷ []) after)
      ∙ first_line-cut ending message (newline ∷ []) after p (omega (arith, p.fits)) refl
      ∙ rw (append-nil message, utf8)

  -- A message of at most the limit without a newline that the other side frames and sends is read
  -- as it was sent, whatever reads it arrives in and whatever follows it.
  pub read_bounded_line-framed :
      (message after : List Byte) (reads : List Read)
      → has_newline message ≡ false
      → length message ≤ max_line_bytes
      → is_utf8 message ≡ true
      → (received reads).0 ≡ framed message ++ after
      → read_bounded_line is_utf8 reads ≡ line message
  read_bounded_line-framed message after reads clean fits utf8 e =
      read_bounded_line-first_line reads
      ∙ ap (λ l. first_line is_utf8 l (received reads).1) e
      ∙ framed-first_line (received reads).1 message after (record { unended = clean; fits = fits })
          utf8
