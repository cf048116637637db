-- ===== src/Daemon/Examples/Sockets.antt =====
-- A message that arrives on the authentication socket in three reads.
use veila.Prelude.{
  ◌≡◌, refl, Bool, true, ◌&&◌, Option, none, some, List, [], ◌∷◌, arith, ◌==◌, if◌then◌else◌,
  nat_eq,
}
use veila.Lines.{Byte, Read, chunk, failed, framed}
use veila.Lines.Framing.{received, has_newline}
use veila.Daemon.Messages.{ClientMessage, activity}
use veila.Daemon.Client.{handle_client_message, handle_auth_connection, logged}
use veila.Daemon.Transport.{read_client_message, read_client_message-framed}
use veila.Daemon.Examples.{held, delivery}

-- A decoder that knows one message, `{}`.
abbrev decode_activity : List Byte → Option ClientMessage
decode_activity (b ∷ c ∷ []) = if b == 123 && c == 125 then some activity else none
decode_activity _ = none

abbrev any_bytes : List Byte → Bool
any_bytes _ = true

abbrev three_reads : List Read
three_reads = chunk (123 ∷ []) ∷ chunk (125 ∷ []) ∷ chunk (10 ∷ 7 ∷ []) ∷ failed ∷ []

read_client_message-framed_example :
    handle_auth_connection delivery (read_client_message any_bytes decode_activity three_reads) held
    ≡ logged (handle_client_message delivery activity held)
unfolding has_newline received framed
read_client_message-framed_example =
    read_client_message-framed any_bytes decode_activity (123 ∷ 125 ∷ []) (7 ∷ []) three_reads
      activity delivery held refl (omega arith) refl refl refl
