-- ===== src/Daemon/Transport.antt =====
-- The messages on the daemon's sockets: `read_client_message` and `read_daemon_control_message` of
-- crates/daemon/src/adapters/ipc.rs. The JSON decoder is the argument `decode`.
use veila.Prelude.{◌≤◌, ◌≡◌, Bool, true, false, Option, none, some, List, ◌++◌, length, nat_eq}
use veila.Lines.{
  Byte, max_line_bytes, Read, LineResult, line, closed, read_failed, ended_early, too_long,
  not_utf8, read_bounded_line, framed,
}
use veila.Lines.Framing.{received, has_newline}
use veila.Lines.Reading.{read_bounded_line-framed}
use veila.Daemon.Messages.{ClientMessage, DaemonControlMessage, unreadable_line, invalid_message}
use veila.Daemon.Runtime.{Runtime}
use veila.Daemon.Client
use veila.Daemon.Client.{
  Incoming, unreadable, Delivery, handle_client_message, handle_auth_connection, logged,
}

module _ {M : Type 0} (is_utf8 : List Byte → Bool) (decode : List Byte → Option M) where
  -- `decode_message(&line).map(Some)`
  abbrev pub decoded_message : Option M → Incoming M
  decoded_message none = unreadable invalid_message
  decoded_message (some m) = Client.received m

  abbrev pub incoming : LineResult → Incoming M
  incoming (line bytes) = decoded_message (decode bytes)
  incoming closed = Client.closed
  incoming read_failed = unreadable unreadable_line
  incoming ended_early = unreadable unreadable_line
  incoming too_long = unreadable unreadable_line
  incoming not_utf8 = unreadable unreadable_line

unfoldable pub read_client_message :
    (List Byte → Bool) → (List Byte → Option ClientMessage) → List Read → Incoming ClientMessage
unfolding read_bounded_line
read_client_message is_utf8 decode reads = incoming is_utf8 decode (read_bounded_line is_utf8 reads)

unfoldable pub read_daemon_control_message :
    (List Byte → Bool)
    → (List Byte → Option DaemonControlMessage)
    → List Read
    → Incoming DaemonControlMessage
unfolding read_bounded_line
read_daemon_control_message is_utf8 decode reads =
    incoming is_utf8 decode (read_bounded_line is_utf8 reads)

-- A message that a client encodes, frames and sends is handled as it was meant, whatever reads it
-- arrives in and whatever follows it, if its encoding has no newline, is UTF-8, is at most the limit,
-- and is decoded to the message.
pub read_client_message-framed :
    (is_utf8 : List Byte → Bool) (decode : List Byte → Option ClientMessage)
    (payload after : List Byte) (reads : List Read) (m : ClientMessage) (d : Delivery) (r : Runtime)
    → has_newline payload ≡ false
    → length payload ≤ max_line_bytes
    → is_utf8 payload ≡ true
    → decode payload ≡ some m
    → (received reads).0 ≡ framed payload ++ after
    → handle_auth_connection d (read_client_message is_utf8 decode reads) r
      ≡ logged (handle_client_message d m r)
unfolding read_client_message handle_auth_connection
read_client_message-framed is_utf8 decode payload after reads m d r clean fits utf8 e f =
    rw (read_bounded_line-framed is_utf8 payload after reads clean fits utf8 f, e)
