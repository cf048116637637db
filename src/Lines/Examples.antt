-- ===== src/Lines/Examples.antt =====
-- Messages cut into reads.
use veila.Prelude.{◌≡◌, refl, Bool, true, false, List, [], ◌∷◌, ltb, if◌then◌else◌, nat_eq}
use veila.Lines.{Byte, Read, chunk, failed, line, read_bounded_line, read_line, line_end, consumed}
use veila.Lines.Framing.{received, first_line}
use veila.Lines.Reading.{read_bounded_line-first_line}

abbrev ascii : List Byte → Bool
ascii [] = true
ascii (b ∷ bs) = let rest = ascii bs in if ltb b 128 then rest else false

abbrev cut_reads : List Read
cut_reads = chunk (65 ∷ 66 ∷ []) ∷ chunk (67 ∷ 10 ∷ 68 ∷ []) ∷ failed ∷ []

cut_reads_line : read_bounded_line ascii cut_reads ≡ line (65 ∷ 66 ∷ 67 ∷ [])
unfolding read_bounded_line read_line line_end consumed
cut_reads_line = refl

read_bounded_line-first_line_example :
    read_bounded_line ascii cut_reads
    ≡ first_line ascii (received cut_reads).0 (received cut_reads).1
read_bounded_line-first_line_example = read_bounded_line-first_line ascii cut_reads
