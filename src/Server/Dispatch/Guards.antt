-- ===== src/Server/Dispatch/Guards.antt =====
-- Requests that `RpcServer::dispatch` of crates/netfilum-server/src/server.rs turns away.
use netfilum.Prelude.{ℕ, Bool, ◌≡◌, arith, false, Option, none, some, map, List}
use netfilum.Prelude.Texts.{Text, codes}
use netfilum.Prelude.Results.{Result, ok, err}
use netfilum.Protocol.{EntryKind, Request, Response, ErrorCode, RpcError}
use netfilum.Paths.{PathBuf, normal, join, path_starts_with}
use netfilum.Server.Path.Spec.{relative_names}
use netfilum.Server.Path.Laws.{normalize_relative_path-eq-relative_names}
use netfilum.Server.Fs.{Fs}
use netfilum.Server.Resolve.{RpcServer, resolve_existing, resolve_for_new_path, parent_or_root}
use netfilum.Server.Resolve.Laws.{resolve_existing-keeps, resolve_for_new_path-keeps}
use netfilum.Server.Files
use netfilum.Server.Files.{rpc_error}
use netfilum.Server.Dispatch.{dispatch}

-- The path of a request that has to be there.
abbrev pub existing_path : Request → Option Text
existing_path (Request.stat path) = some path
existing_path (Request.open_path path) = some path
existing_path (Request.create path kind attributes allocation) = none
existing_path (Request.read_dir path) = some path
existing_path (Request.read path offset len) = some path
existing_path (Request.write path offset payload to_eof) = some path
existing_path (Request.can_delete path kind) = some path
existing_path (Request.remove_file path) = some path
existing_path (Request.remove_dir path) = some path
existing_path (Request.rename path new_path replace) = some path
existing_path (Request.set_len path size allocation) = some path
existing_path (Request.flush path) = path
existing_path (Request.set_basic_info path update) = some path
existing_path Request.get_volume_info = none

-- The path of a request that an entry is made at.
abbrev pub created_path : Request → Option Text
created_path (Request.create path kind attributes allocation) = some path
created_path (Request.rename path new_path replace) = some new_path
created_path _ = none

module _ (F : Fs) (server : RpcServer) (s : F.State) (e : RpcError) where
  abbrev refused : Result RpcError Response × F.State
  refused = (err e, s)

  dispatch-existing_refused :
      (r : Request) (path : Text)
      → existing_path r ≡ some path
      → (resolve_existing F server path s).0 ≡ err e
      → dispatch F server r s ≡ refused
  unfolding dispatch Files.stat_path Files.read_dir Files.read_file Files.write_file
      Files.can_delete Files.remove_file Files.remove_dir Files.rename Files.set_len Files.flush
      Files.set_basic_info
  dispatch-existing_refused (Request.stat path) p q h =
      ground (arith, resolve_existing-keeps F server p s)
  dispatch-existing_refused _ p q h = ground (arith, resolve_existing-keeps F server p s)

  create-refused :
      (path : Text) (kind : EntryKind) (attributes allocation : ℕ)
      → (resolve_for_new_path F server path s).0 ≡ err e
      → dispatch F server (Request.create path kind attributes allocation) s ≡ refused
  unfolding dispatch Files.create_entry
  create-refused path kind attributes allocation h =
      ground (arith, resolve_for_new_path-keeps F server path s)

  rename-refused :
      (from to : Text) (replace : Bool) (from_path : PathBuf)
      → (resolve_existing F server from s).0 ≡ ok from_path
      → (resolve_for_new_path F server to s).0 ≡ err e
      → dispatch F server (Request.rename from to replace) s ≡ refused
  unfolding dispatch Files.rename
  rename-refused from to replace from_path k h =
      ground
        (arith, resolve_existing-keeps F server from s, resolve_for_new_path-keeps F server to s)

abbrev pub escape_error : RpcError
escape_error = rpc_error ErrorCode.permission_denied (codes "path escapes the exported root")

module _ (F : Fs) (server : RpcServer) (s : F.State) where
  resolve_existing-bad :
      (path message : Text)
      → relative_names path ≡ err message
      → (resolve_existing F server path s).0 ≡ err (rpc_error ErrorCode.invalid_input message)
  unfolding resolve_existing
  resolve_existing-bad path message h =
      ground (arith, normalize_relative_path-eq-relative_names path)

  resolve_existing-escape :
      (path : Text) (names : List Text) (resolved : PathBuf)
      → relative_names path ≡ ok names
      → F.canonicalize (join server.root (map normal names)) s ≡ ok resolved
      → path_starts_with resolved server.root_real ≡ false
      → (resolve_existing F server path s).0 ≡ err escape_error
  unfolding resolve_existing
  resolve_existing-escape path names resolved h f w =
      ground (arith, normalize_relative_path-eq-relative_names path)

  new_path-escape :
      (path : Text) (names : List Text) (resolved : PathBuf)
      → relative_names path ≡ ok names
      → F.canonicalize (parent_or_root server (join server.root (map normal names))) s ≡ ok resolved
      → path_starts_with resolved server.root_real ≡ false
      → (resolve_for_new_path F server path s).0 ≡ err escape_error
  unfolding resolve_for_new_path
  new_path-escape path names resolved h f w =
      ground (arith, normalize_relative_path-eq-relative_names path)

  -- A request whose path has to be there, with a path that the specification of
  -- `normalize_relative_path` refuses, is answered by an `InvalidInput` error with its message, and
  -- the disk is as it was.
  pub dispatch-invalid_path :
      (r : Request) (path message : Text)
      → existing_path r ≡ some path
      → relative_names path ≡ err message
      → dispatch F server r s ≡ (err (rpc_error ErrorCode.invalid_input message), s)
  dispatch-invalid_path r path message q h =
      dispatch-existing_refused F server s _ r path q (resolve_existing-bad path message h)

  -- A request whose path has to be there, and which the disk resolves to a place outside the real
  -- root (through a symbolic link), is answered by a `PermissionDenied` error, and the disk is as
  -- it was.
  pub dispatch-escape :
      (r : Request) (path : Text) (names : List Text) (resolved : PathBuf)
      → existing_path r ≡ some path
      → relative_names path ≡ ok names
      → F.canonicalize (join server.root (map normal names)) s ≡ ok resolved
      → path_starts_with resolved server.root_real ≡ false
      → dispatch F server r s ≡ (err escape_error, s)
  dispatch-escape r path names resolved q h f w =
      dispatch-existing_refused F server s _ r path q
        (resolve_existing-escape path names resolved h f w)

  -- A new entry whose parent resolves to a place outside the real root is refused with a
  -- `PermissionDenied` error, for `Create` and, where the path to rename is accepted, for `Rename`.
  -- The disk is as it was.
  pub dispatch-create_escape :
      (from to : Text) (kind : EntryKind) (attributes allocation : ℕ) (replace : Bool)
      (from_path : PathBuf) (names : List Text) (resolved : PathBuf)
      → relative_names to ≡ ok names
      → F.canonicalize (parent_or_root server (join server.root (map normal names))) s ≡ ok resolved
      → path_starts_with resolved server.root_real ≡ false
      → (resolve_existing F server from s).0 ≡ ok from_path
      → (dispatch F server (Request.create to kind attributes allocation) s ≡ (err escape_error, s))
        × (dispatch F server (Request.rename from to replace) s ≡ (err escape_error, s))
  dispatch-create_escape from to kind attributes allocation replace from_path names resolved h f w
        k =
      let refused = new_path-escape to names resolved h f w in
      (
        create-refused F server s _ to kind attributes allocation refused,
        rename-refused F server s _ from to replace from_path k refused,
      )
