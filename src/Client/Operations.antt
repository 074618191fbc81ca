-- ===== src/Client/Operations.antt =====
-- crates/netfilum-client/src/mount.rs: the operations of `FileSystemContext` for `RpcFsContext`. An
-- operation on an open file has the file's context in its state.
pub mod Volume
pub mod Constrained
pub mod Contexts
pub mod Disconnects
pub mod Failures
pub mod Matching
pub mod Requests
pub mod Replies
pub mod Offline
pub mod Directories
pub mod Growing
pub mod Performed
pub mod Reads
pub mod RoundTrip
pub mod Reported
pub mod Sizes
pub mod Info
unfoldable pub use Volume.*
use Prim.Native.Nat.{bit_and}
use netfilum.Prelude.{
  ℕ, ◌+◌, ◌-◌, ◌%◌, ◌^◌, Bool, true, false, not, ◌&&◌, ◌||◌, Option, none, some, List, [], ◌∷◌,
  ◌++◌,
}
use netfilum.Prelude.{length, take, drop, leb, ltb, ◌==◌, if◌then◌else◌}
use netfilum.Prelude.Texts.{Text, Bytes, codes}
use netfilum.Prelude.Results.{Result, ok, err, Run, raise, pure, lift, ◌>>=◌, ◌>>◌}
use netfilum.Protocol.{
  EntryKind, file, directory, FileAttr, DirEntry, BasicInfoUpdate, VolumeInfoData, Request,
  Response,
}
use netfilum.Client.Times.{wire_time_from_windows}
use netfilum.Client.Attributes.{FileInfo, fill_file_info, file_attributes_from_attr}
use netfilum.Client.Attributes.{readonly_update_from_attributes, copy_security_descriptor}
use netfilum.Client.Path.{nt_path_to_relative}
use netfilum.Client.Context.{Environment, RpcFsContext, Mounted, RpcFileContext, new_file_context}
use netfilum.Client.Context.{call, other, expect_attr, fetch_attr, fetch_dir_entries}

-- The payload of a write that must not pass the end of a file of the given size; `none` where the
-- offset is not before the end.
unfoldable pub constrain : ℕ → ℕ → Bytes → Option Bytes
constrain size offset payload =
    if leb size offset
    then none
    else some
        (if ltb (size - offset) (length payload) then take (size - offset) payload else payload)

abbrev pub removal : EntryKind → Text → Request
removal file path = Request.remove_file path
removal directory path = Request.remove_dir path

module _ (E : Environment) where
  open E use {FspError}

  -- An open file.
  pub record Opened : Type 0 where
    pub mounted : Mounted E
    pub context : RpcFileContext E

  abbrev pub on_mount : {A : Type 0} → Run (Mounted E) FspError A → Run Opened FspError A
  on_mount m o = let (r, mounted) = m o.mounted in (r, record o { mounted = mounted })

  abbrev pub on_path : {A : Type 0} → (Text → Run (Mounted E) FspError A) → Run Opened FspError A
  on_path m o = on_mount (m o.context.path) o

  -- `RpcFileContext::set_path`
  abbrev pub set_path : Text → Run Opened FspError Unit
  set_path path o = (ok tt, record o { context = record o.context { path = path } })

  -- The context is dropped.
  unfoldable pub close : Opened → Mounted E
  close o = o.mounted

  unfoldable pub should_delete : ℕ → RpcFileContext E → Bool
  should_delete flags c = c.delete_pending || is_flagged fsp_cleanup_delete flags

  -- The outcome of the request is dropped.
  unfoldable pub cleanup : ℕ → Opened → Opened
  unfolding should_delete
  cleanup flags o =
      if should_delete flags o.context
      then (on_mount (call E (removal o.context.kind o.context.path)) o).1
      else o

  -- `flush` on a file; on the volume it is the request alone, and no `FileInfo` is filled.
  unfoldable pub flush_file : Run Opened FspError FileInfo
  flush_file = do
    on_path (λ path. call E (Request.flush (some path)))
    attr ← on_path (fetch_attr E)
    pure (fill_file_info attr)

  unfoldable pub flush_volume : Run (Mounted E) FspError Unit
  flush_volume = do call E (Request.flush none); pure tt

  unfoldable pub get_file_info : Run Opened FspError FileInfo
  get_file_info = do attr ← on_path (fetch_attr E); pure (fill_file_info attr)

  -- The length, and the target with the descriptor.
  unfoldable pub get_security :
      RpcFsContext E → Option Bytes → Run Opened FspError (ℕ × Option Bytes)
  get_security fs target =
      pure (length fs.security_descriptor, copy_security_descriptor fs.security_descriptor target)

  unfoldable pub set_security : Run Opened FspError Unit
  set_security = raise E.access_denied

  abbrev pub on_buffer : {A : Type 0} → Run E.DirBuffer FspError A → Run Opened FspError A
  on_buffer m o =
      let (r, b) = m o.context.dir_buffer in
      (r, record o { context = record o.context { dir_buffer = b } })

  -- `DirInfo` takes a name that is short enough, and then the attributes.
  unfoldable pub write_special_dir_entry : Text → FileAttr → Run E.DirBuffer FspError Unit
  write_special_dir_entry name attr = do
    entry_name ← lift (E.set_name name)
    E.write_entry entry_name (fill_file_info attr)

  unfoldable pub write_dir_entry : DirEntry → Run E.DirBuffer FspError Unit
  write_dir_entry entry = do
    entry_name ← lift (E.set_name entry.name)
    E.write_entry entry_name (fill_file_info entry.attr)

  unfoldable pub write_entries : List DirEntry → Run Opened FspError Unit
  write_entries [] = pure tt
  write_entries (e ∷ es) = do on_buffer (write_dir_entry e); write_entries es

  -- What happens to the buffer that `acquire` gives: where the listing begins, the directory itself,
  -- its parent and its entries are written to it.
  abbrev pub fill_buffer :
      FileAttr → List DirEntry → Option Text → Option E.DirBuffer → Run Opened FspError Unit
  fill_buffer attr entries marker none o = (ok tt, o)
  fill_buffer attr entries (some name) (some b) o =
      (ok tt, record o { context = record o.context { dir_buffer = b } })
  fill_buffer attr entries none (some b) o =
      (on_buffer (write_special_dir_entry (codes ".") attr) >>= λ _.
      on_buffer (write_special_dir_entry (codes "..") attr) >>= λ _. write_entries entries)
        (record o { context = record o.context { dir_buffer = b } })

  abbrev pub is_start : Option Text → Bool
  is_start none = true
  is_start (some name) = false

  abbrev pub acquired : List DirEntry → Option Text → Opened → Option E.DirBuffer
  acquired entries marker o =
      E.acquire (is_start marker) ((length entries + 2) % 2 ^ 32) o.context.dir_buffer

  unfoldable pub read_directory : Option Text → Run Opened FspError Bytes
  unfolding write_entries
  read_directory marker = do
    attr ← on_path (fetch_attr E)
    entries ← on_path (fetch_dir_entries E)
    λ o. fill_buffer attr entries marker (acquired entries marker o) o
    λ o. (ok (E.read_entries marker o.context.dir_buffer), o)

  unfoldable pub rename : Text → Bool → Run Opened FspError Unit
  rename new_file_name replace_if_exists = do
    let new_path = nt_path_to_relative new_file_name
    on_path (λ path. call E (Request.rename path new_path replace_if_exists))
    set_path new_path

  unfoldable pub set_basic_info : ℕ → ℕ → ℕ → ℕ → ℕ → Run Opened FspError FileInfo
  set_basic_info file_attributes creation last_access last_write change = do
    let update : BasicInfoUpdate = record {
      readonly = readonly_update_from_attributes file_attributes;
      creation_time = wire_time_from_windows creation;
      last_access_time = wire_time_from_windows last_access;
      last_write_time = wire_time_from_windows last_write;
      change_time = wire_time_from_windows change;
    }
    response ← on_path (λ path. call E (Request.set_basic_info path update))
    attr ← on_mount (expect_attr E (codes "unexpected set_basic_info response") response)
    pure (fill_file_info attr)

  abbrev mark_delete : Bool → Run Opened FspError Unit
  mark_delete delete_file o =
      (ok tt, record o { context = record o.context { delete_pending = delete_file } })

  unfoldable pub set_delete : Bool → Run Opened FspError Unit
  set_delete true = do
    λ o. on_mount (call E (Request.can_delete o.context.path o.context.kind)) o
    mark_delete true
  set_delete false = mark_delete false

  unfoldable pub set_file_size : ℕ → Bool → Run Opened FspError FileInfo
  set_file_size new_size set_allocation_size = do
    response ← on_path (λ path. call E (Request.set_len path new_size set_allocation_size))
    attr ← on_mount (expect_attr E (codes "unexpected set_file_size response") response)
    pure (fill_file_info attr)

  -- The buffer after `copy_from_slice`, and the count; `none` where the slice is out of range and the
  -- thread panics.
  unfoldable pub copy_read : Bytes → Bytes → Option (Bytes × ℕ)
  copy_read payload buffer =
      if leb (length payload) (length buffer)
      then some (payload ++ drop (length payload) buffer, length payload % 2 ^ 32)
      else none

  unfoldable pub read : Bytes → ℕ → Run Opened FspError (Option (Bytes × ℕ))
  unfolding copy_read
  read buffer offset = do
    response ← on_path (λ path. call E (Request.read path offset (length buffer % 2 ^ 32)))
    elim response [
      | Response.payload payload ↦ pure (copy_read payload buffer)
      | _ ↦ on_mount (other E (codes "unexpected read response"))
    ]

  -- The count, and the `FileInfo` where it is filled.
  unfoldable pub write_payload : ℕ → Bool → Option Bytes → Run Opened FspError (ℕ × Option FileInfo)
  write_payload offset write_to_eof none = pure (0, none)
  write_payload offset write_to_eof (some payload) = do
    response ← on_path (λ path. call E (Request.write path offset payload write_to_eof))
    elim response [
      | Response.write_result written attr ↦ pure (written, some (fill_file_info attr))
      | _ ↦ on_mount (other E (codes "unexpected write response"))
    ]

  unfoldable pub write : Bytes → ℕ → Bool → Bool → Run Opened FspError (ℕ × Option FileInfo)
  unfolding write_payload
  write buffer offset write_to_eof true = do
    attr ← on_path (fetch_attr E)
    write_payload offset write_to_eof (constrain attr.size offset buffer)
  write buffer offset write_to_eof false = write_payload offset write_to_eof (some buffer)
