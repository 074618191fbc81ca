-- ===== src/Client/Operations/Offline.antt =====
-- The operations of crates/netfilum-client/src/mount.rs where no request reaches the server.
use netfilum.Prelude.{
  ◌≡◌, refl, ◌⊎◌, inl, inr, arith, Bool, true, false, Option, none, some, if◌then◌else◌, ◌++◌,
  Option-cases,
}
use netfilum.Prelude.Texts.{Text, codes}
use netfilum.Prelude.Results.{err}
use netfilum.Protocol.Errors.{IoError, ErrorKind}
use netfilum.Client.MountState.{MountState, note_error, is_disconnect_error, report_disconnect}
use netfilum.Client.Context.{Environment, RpcFsContext, call, send_request, fetch_attr}
use netfilum.Client.Served.{answered_by}
use netfilum.Client.Operations as Operations
use netfilum.Client.Operations.{Opened, should_delete}
use netfilum.Client.Operations.Performed.{Operation}
use netfilum.Client.Operations.Replies.{replying}

-- Every request fails with this error.
abbrev pub offline : IoError → Environment → Environment
offline e E = answered_by E (Unit {0}) λ request w. (err e, w)

-- The errors that mean that the server is gone.
abbrev pub is_lost : ErrorKind → Bool
is_lost ErrorKind.connection_aborted = true
is_lost ErrorKind.connection_refused = true
is_lost ErrorKind.connection_reset = true
is_lost ErrorKind.broken_pipe = true
is_lost ErrorKind.not_connected = true
is_lost ErrorKind.unexpected_eof = true
is_lost _ = false

-- What the state of the mount is where a lost connection is noted: the mount stops, with the earlier
-- report, or else with one of this error.
abbrev pub stopped : Option Text → IoError → MountState
stopped (some old) e = record { stop = true; disconnect_message = some old }
stopped none e = record {
  stop = true;
  disconnect_message = some (codes "lost connection to server: " ++ e.message);
}

abbrev pub noted : IoError → MountState → MountState
noted e m = if is_lost e.kind then stopped m.disconnect_message e else m

note_error-noted : (e : IoError) (m : MountState) → note_error e m ≡ noted e m
unfolding note_error is_disconnect_error report_disconnect
note_error-noted e m = elim (Option-cases m.disconnect_message) [
  | inl h ↦ ground arith
  | inr (old, h) ↦ ground arith
]

-- The operations whose first request is for the attributes of a path.
abbrev pub asks_attributes : Operation → Bool
asks_attributes (Operation.get_security_by_name name target none) = true
asks_attributes (Operation.open_path name) = true
asks_attributes Operation.get_file_info = true
asks_attributes (Operation.read_directory marker) = true
asks_attributes (Operation.write buffer offset to_eof constrained) = constrained
asks_attributes _ = false

-- The operations that return without a request's answer.
abbrev pub is_local : Operation → Bool
is_local (Operation.get_security_by_name name target (some r)) = true
is_local (Operation.cleanup flags) = true
is_local Operation.set_security = true
is_local (Operation.get_security target) = true
is_local (Operation.set_delete delete) = if delete then false else true
is_local _ = false

module _ (E : Environment) (e : IoError) (fs : RpcFsContext (offline e E)) where
  abbrev O : Environment
  O = offline e E

  -- What an operation leaves of the state of the mount, and what it returns.
  abbrev pub Offline : Operation → Opened O → Type 0
  Offline op o =
      ((replying O fs op o).1.mounted.mount_state
        ≡ (if asks_attributes op then noted e o.mounted.mount_state else o.mounted.mount_state))
      × ((is_local op ≡ true) ⊎ ((replying O fs op o).0 ≡ err (E.from_io e)))

  -- Where every request fails with an error, an operation that needs an answer returns this error: all
  -- but `cleanup`, the ones that send nothing and a name that winfsp resolves itself. The error is
  -- noted in the state of the mount by the operations that first ask for attributes:
  -- `get_security_by_name`, `open`, `get_file_info`, `read_directory` and a constrained `write`: where
  -- its kind is one of the six that mean a lost connection, the mount is told to stop, with the report
  -- that is kept already or else with one of this error, and otherwise the state stays as it is. Every
  -- other operation leaves that state as it is.
  pub replying-Offline : (op : Operation) (o : Opened O) → Offline op o
  unfolding Operations.get_security_by_name Operations.open_path Operations.create
      Operations.get_volume_info Operations.cleanup Operations.flush_file Operations.flush_volume
      Operations.get_file_info Operations.set_security Operations.get_security
      Operations.read_directory Operations.rename Operations.set_basic_info Operations.set_delete
      Operations.set_file_size Operations.read Operations.write Operations.write_payload call
      send_request fetch_attr
  replying-Offline (Operation.get_security_by_name name target none) o =
      (note_error-noted e o.mounted.mount_state, inr refl)
  replying-Offline (Operation.open_path name) o =
      (note_error-noted e o.mounted.mount_state, inr refl)
  replying-Offline Operation.get_file_info o = (note_error-noted e o.mounted.mount_state, inr refl)
  replying-Offline (Operation.read_directory marker) o =
      (note_error-noted e o.mounted.mount_state, inr refl)
  replying-Offline (Operation.get_security_by_name name target (some r)) o = (refl, inl refl)
  replying-Offline (Operation.cleanup flags) o = (ground arith, inl refl)
  replying-Offline Operation.set_security o = (refl, inl refl)
  replying-Offline (Operation.get_security target) o = (refl, inl refl)
  replying-Offline (Operation.set_delete true) o = (refl, inr refl)
  replying-Offline (Operation.set_delete false) o = (refl, inl refl)
  replying-Offline (Operation.write buffer offset to_eof true) o =
      (note_error-noted e o.mounted.mount_state, inr refl)
  replying-Offline (Operation.write buffer offset to_eof false) o = (refl, inr refl)
  replying-Offline _ o = (refl, inr refl)
