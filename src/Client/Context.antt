-- ===== src/Client/Context.antt =====
-- crates/netfilum-client/src/mount.rs: `RpcFsContext` and `RpcFileContext`, and the requests that
-- they send. The server behind the network, and winfsp's errors and directory buffers, are the
-- parameter `Environment`.
use netfilum.Prelude.{ℕ, Bool, false, Option, List}
use netfilum.Prelude.Texts.{Text, Bytes, codes}
use netfilum.Prelude.Results.{Result, ok, err, Run, raise, pure, ◌>>=◌}
use netfilum.Protocol.{EntryKind, FileAttr, DirEntry, Request, Response}
use netfilum.Protocol.Errors.{ErrorKind, IoError}
use netfilum.Client.MountState.{MountState, note_error}
use netfilum.Client.Attributes.{FileInfo}

pub record Environment : Type 1 where
  pub World : Type 0
  pub send : Request → Run World IoError Response
  pub FspError : Type 0
  pub from_io : IoError → FspError
  pub access_denied : FspError
  pub DirBuffer : Type 0
  pub new_buffer : DirBuffer
  pub acquire : Bool → ℕ → DirBuffer → Option DirBuffer
  pub EntryName : Type 0
  pub set_name : Text → Result FspError EntryName
  pub write_entry : EntryName → FileInfo → Run DirBuffer FspError Unit
  pub read_entries : Option Text → DirBuffer → Bytes

-- `io::Error::other`
abbrev pub other_error : Text → IoError
other_error message = record { kind = ErrorKind.other; message = message }

module _ (E : Environment) where
  open E use {World, FspError, DirBuffer}

  pub record RpcFsContext : Type 0 where
    pub security_descriptor : Bytes
    pub volume_label : Text

  -- The server's side and the state that the threads of the client share.
  pub record Mounted : Type 0 where
    pub world : World
    pub mount_state : MountState

  pub record RpcFileContext : Type 0 where
    pub path : Text
    pub kind : EntryKind
    pub dir_buffer : DirBuffer
    pub delete_pending : Bool

  -- `RpcFileContext::new`
  abbrev pub new_file_context : Text → EntryKind → RpcFileContext
  new_file_context path kind = record {
    path = path;
    kind = kind;
    dir_buffer = E.new_buffer;
    delete_pending = false;
  }

  -- `self.client.send(&request).map_err(FspError::from)`
  unfoldable pub call : Request → Run Mounted FspError Response
  call request m = elim (E.send request m.world).0 [
    | ok response ↦ (ok response, record m { world = (E.send request m.world).1 })
    | err error ↦ (err (E.from_io error), record m { world = (E.send request m.world).1 })
  ]

  -- `send_request`, whose errors pass through `map_rpc_error`.
  unfoldable pub send_request : Request → Run Mounted FspError Response
  send_request request m = elim (E.send request m.world).0 [
    | ok response ↦ (ok response, record m { world = (E.send request m.world).1 })
    | err error ↦ (
      err (E.from_io error),
      record m { world = (E.send request m.world).1; mount_state = note_error error m.mount_state },
    )
  ]

  abbrev pub other : {A : Type 0} → Text → Run Mounted FspError A
  other message = raise (E.from_io (other_error message))

  abbrev pub expect_attr : Text → Response → Run Mounted FspError FileAttr
  expect_attr message (Response.attr attr) = pure attr
  expect_attr message _ = other message

  unfoldable pub fetch_attr : Text → Run Mounted FspError FileAttr
  fetch_attr path = do
    response ← send_request (Request.stat path)
    expect_attr (codes "unexpected attr response") response

  abbrev pub expect_entries : Response → Run Mounted FspError (List DirEntry)
  expect_entries (Response.dir_entries entries) = pure entries
  expect_entries _ = other (codes "unexpected directory response")

  unfoldable pub fetch_dir_entries : Text → Run Mounted FspError (List DirEntry)
  fetch_dir_entries path = do
    response ← send_request (Request.read_dir path)
    expect_entries response
