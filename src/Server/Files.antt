-- ===== src/Server/Files.antt =====
-- crates/netfilum-server/src/server.rs: the file operations of `RpcServer`, over the operating
-- system `F`. Each is the chain of calls of the method of its name.
pub mod Listing
pub mod Contents
pub mod Broken
pub mod Renames
use netfilum.Prelude.{
  ℕ, ◌+◌, ◌%◌, ◌^◌, Bool, true, false, not, ◌&&◌, ◌||◌, Option, none, some, List, [], ◌∷◌,
}
use netfilum.Prelude.{length, if◌then◌else◌}
use netfilum.Prelude.Int.{ℤ, pos}
use netfilum.Prelude.Texts.{Text, Bytes, codes, text_le}
use netfilum.Prelude.Results.{
  Result, ok, err, Run, gets, lift, raise, with_err, map_err, pure, ◌>>=◌, ◌>>◌,
}
use netfilum.Protocol.{
  EntryKind, file, directory, FileAttr, DirEntry, BasicInfoUpdate, FileTimeValue,
}
use netfilum.Protocol.{Response, ErrorCode, RpcError}
use netfilum.Protocol.Errors.{IoResult, IoError, rpc_error_from}
use netfilum.Paths.{Component, normal, PathBuf, join}
use netfilum.Server.Fs.{Fs, Metadata, OpenOptions, SeekFrom, start, from_end}
use netfilum.Server.Fs.{succeeds, is_dir_result, is_file_result}
use netfilum.Server.Times.{file_time_to_filetime}
use netfilum.Server.Attributes.{
  io, ask, attr_for_path, current_access_time, current_modified_time, set_readonly,
}
use netfilum.Server.Resolve.{RpcServer, resolve_existing, resolve_for_new_path}

-- `RpcError::new(code, text)`
abbrev pub rpc_error : ErrorCode → Text → RpcError
rpc_error code message = record { code = code; message = message }

-- `entries.sort_by(|left, right| left.name.cmp(&right.name))`, which is stable.
unfoldable pub insert_by_name : DirEntry → List DirEntry → List DirEntry
insert_by_name e [] = e ∷ []
insert_by_name e (d ∷ ds) = if text_le e.name d.name then e ∷ d ∷ ds else d ∷ insert_by_name e ds

unfoldable pub sort_by_name : List DirEntry → List DirEntry
unfolding insert_by_name
sort_by_name [] = []
sort_by_name (e ∷ es) = insert_by_name e (sort_by_name es)

abbrev pub read_write : OpenOptions
read_write = record { read = true; write = true; create_new = false }

abbrev pub read_only : OpenOptions
read_only = record { read = true; write = false; create_new = false }

abbrev pub write_only : OpenOptions
write_only = record { read = false; write = true; create_new = false }

abbrev pub write_new : OpenOptions
write_new = record { read = false; write = true; create_new = true }

-- A time of a request, or the current one.
abbrev pub chosen_time : (F : Fs) → Option FileTimeValue → F.FileTime → F.FileTime
chosen_time F none current = current
chosen_time F (some v) current = elim (file_time_to_filetime F v) [ some t ↦ t | none ↦ current ]

abbrev pub is_some {ℓ} : {A : Type ℓ} → Option A → Bool
is_some (some a) = true
is_some none = false

module _ (F : Fs) (server : RpcServer) where
  open F use {State}

  -- What a query of the disk's metadata answers.
  abbrev probe : (IoResult Metadata → Bool) → PathBuf → Run State RpcError Bool
  probe test path s = (ok (test (F.metadata path s)), s)

  unfoldable pub stat_path : Text → Run State RpcError FileAttr
  stat_path relative = do path ← resolve_existing F server relative; attr_for_path F path

  unfoldable pub create_at : PathBuf → EntryKind → Run State RpcError Unit
  create_at path file = do new ← io F (F.open_file write_new path); io F (F.flush new)
  create_at path directory = io F (F.create_dir path)

  unfoldable pub create_entry : Text → EntryKind → ℕ → Run State RpcError FileAttr
  create_entry relative kind allocation_size = do
    path ← resolve_for_new_path F server relative
    create_at path kind
    attr_for_path F path

  -- The loop over the directory's entries.
  unfoldable pub list_entries : PathBuf → List (IoResult Text) → Run State RpcError (List DirEntry)
  list_entries path [] = pure []
  list_entries path (entry ∷ entries) = do
    name ← lift (map_err rpc_error_from entry)
    attr ← attr_for_path F (join path (normal name ∷ []))
    rest ← list_entries path entries
    pure (record { name = F.to_string_lossy name; attr = attr } ∷ rest)

  unfoldable pub read_dir : Text → Run State RpcError (List DirEntry)
  read_dir relative = do
    path ← resolve_existing F server relative
    m ← ask F (F.metadata path)
    if not m.is_dir
        then raise (rpc_error ErrorCode.not_directory (codes "path is not a directory"))
        else do
          names ← ask F (F.read_dir path)
          entries ← list_entries path names
          pure (sort_by_name entries)

  unfoldable pub read_at : PathBuf → ℕ → ℕ → Run State RpcError Bytes
  read_at path offset len = do
    opened ← io F (F.open_file read_only path)
    at_offset ← io F (F.seek (start offset) opened)
    io F (F.read len at_offset)

  unfoldable pub read_file : Text → ℕ → ℕ → Run State RpcError Bytes
  read_file relative offset len = do
    path ← resolve_existing F server relative
    read_at path offset len

  abbrev pub write_position : ℕ → Bool → SeekFrom
  write_position offset write_to_eof = if write_to_eof then from_end (pos 0) else start offset

  unfoldable pub write_at : PathBuf → SeekFrom → Bytes → Run State RpcError Unit
  write_at path position payload = do
    opened ← io F (F.open_file read_write path)
    at_position ← io F (F.seek position opened)
    written ← io F (F.write_all payload at_position)
    io F (F.flush written)

  unfoldable pub write_file : Text → ℕ → Bytes → Bool → Run State RpcError Response
  write_file relative offset payload write_to_eof = do
    path ← resolve_existing F server relative
    write_at path (write_position offset write_to_eof) payload
    attr ← attr_for_path F path
    pure (Response.write_result (length payload % 2 ^ 32) attr)

  unfoldable pub can_delete_at : PathBuf → EntryKind → Run State RpcError Unit
  can_delete_at path file = do
    m ← ask F (F.metadata path)
    if m.is_dir then raise (rpc_error ErrorCode.is_directory (codes "expected a file")) else pure tt
  can_delete_at path directory = do
    m ← ask F (F.metadata path)
    if not m.is_dir
        then raise (rpc_error ErrorCode.not_directory (codes "expected a directory"))
        else do
          children ← ask F (F.read_dir path)
          elim children [
            | [] ↦ pure tt
            | _ ↦ raise (rpc_error ErrorCode.directory_not_empty (codes "directory is not empty"))
          ]

  unfoldable pub can_delete : Text → EntryKind → Run State RpcError Unit
  unfolding can_delete_at
  can_delete relative kind = do path ← resolve_existing F server relative; can_delete_at path kind

  unfoldable pub remove_file : Text → Run State RpcError Unit
  remove_file relative = do path ← resolve_existing F server relative; io F (F.remove_file path)

  unfoldable pub remove_dir : Text → Run State RpcError Unit
  remove_dir relative = do path ← resolve_existing F server relative; io F (F.remove_dir path)

  -- What stands at the target is removed first, where the request says so.
  unfoldable pub clear_target : PathBuf → Bool → Run State RpcError Unit
  clear_target to_path replace_if_exists = do
    is_dir ← probe is_dir_result to_path
    is_file ← probe is_file_result to_path
    if replace_if_exists && is_dir
        then io F (F.remove_dir_all to_path)
        else if replace_if_exists && is_file
        then io F (F.remove_file to_path)
        else pure tt

  unfoldable pub rename : Text → Text → Bool → Run State RpcError Unit
  unfolding clear_target
  rename from to replace_if_exists = do
    from_path ← resolve_existing F server from
    to_path ← resolve_for_new_path F server to
    exists ← probe succeeds to_path
    if not replace_if_exists && exists
        then raise (rpc_error ErrorCode.already_exists (codes "target already exists"))
        else do clear_target to_path replace_if_exists; io F (F.rename from_path to_path)

  unfoldable pub set_len_at : PathBuf → ℕ → Run State RpcError Unit
  set_len_at path size = do
    opened ← io F (F.open_file write_only path)
    io F (F.set_len size opened)

  unfoldable pub set_len : Text → ℕ → Bool → Run State RpcError FileAttr
  unfolding set_len_at
  set_len relative size set_allocation_size = do
    path ← resolve_existing F server relative
    if set_allocation_size then pure tt else set_len_at path size
    attr_for_path F path

  unfoldable pub sync_at : PathBuf → Run State RpcError Unit
  sync_at path = do opened ← io F (F.open_file read_write path); io F (F.sync_all opened)

  unfoldable pub flush : Option Text → Run State RpcError Unit
  unfolding sync_at
  flush none = pure tt
  flush (some relative) = do
    path ← resolve_existing F server relative
    is_dir ← probe is_dir_result path
    if is_dir then pure tt else sync_at path

  unfoldable pub update_readonly : PathBuf → Option Bool → Run State RpcError Unit
  update_readonly path none = pure tt
  update_readonly path (some readonly) = io F (set_readonly F path readonly)

  unfoldable pub set_basic_info : Text → BasicInfoUpdate → Run State RpcError FileAttr
  unfolding update_readonly
  set_basic_info relative update = do
    path ← resolve_existing F server relative
    update_readonly path update.readonly
    current_atime ← current_access_time F path
    current_mtime ← current_modified_time F path
    let next_atime = chosen_time F update.last_access_time current_atime
    let next_mtime = chosen_time F update.last_write_time current_mtime
    if is_some update.last_access_time || is_some update.last_write_time
        then io F (F.set_file_times path next_atime next_mtime)
        else pure tt
    attr_for_path F path
