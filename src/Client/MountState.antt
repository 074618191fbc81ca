-- ===== src/Client/MountState.antt =====
-- crates/netfilum-client/src/mount.rs: `MountState`, and the errors that mean a lost connection.
pub mod Shutdown
pub mod Watch
use netfilum.Prelude.{Bool, true, false, Option, none, some, ◌++◌, if◌then◌else◌}
use netfilum.Prelude.Texts.{Text, codes}
use netfilum.Protocol.Errors.{ErrorKind, IoError}

pub record MountState : Type 0 where
  pub stop : Bool
  pub disconnect_message : Option Text

-- `MountState::default()`
abbrev pub initial : MountState
initial = record { stop = false; disconnect_message = none }

-- The slot keeps the first message.
abbrev pub first_message : Option Text → Text → Option Text
first_message none message = some message
first_message (some old) message = some old

unfoldable pub report_disconnect : Text → MountState → MountState
report_disconnect message m = record m {
  disconnect_message = first_message m.disconnect_message message;
  stop = true;
}

abbrev pub is_disconnect_kind : ErrorKind → Bool
is_disconnect_kind ErrorKind.connection_aborted = true
is_disconnect_kind ErrorKind.connection_refused = true
is_disconnect_kind ErrorKind.connection_reset = true
is_disconnect_kind ErrorKind.broken_pipe = true
is_disconnect_kind ErrorKind.not_connected = true
is_disconnect_kind ErrorKind.unexpected_eof = true
is_disconnect_kind _ = false

unfoldable pub is_disconnect_error : IoError → Bool
is_disconnect_error error = is_disconnect_kind error.kind

-- What `map_rpc_error` does to the state; the error itself is converted by winfsp.
unfoldable pub note_error : IoError → MountState → MountState
unfolding is_disconnect_error report_disconnect
note_error error m =
    if is_disconnect_error error
    then report_disconnect (codes "lost connection to server: " ++ error.message) m
    else m

-- `ShutdownReason`, and how `wait_for_shutdown` picks it from the message.
pub data ShutdownReason : Type 0 where
  interrupted : ShutdownReason
  server_disconnected : Text → ShutdownReason

unfoldable pub shutdown_reason : Option Text → ShutdownReason
shutdown_reason (some message) = server_disconnected message
shutdown_reason none = interrupted
