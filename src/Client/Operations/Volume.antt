-- ===== src/Client/Operations/Volume.antt =====
-- crates/netfilum-client/src/mount.rs: the operations of `FileSystemContext` on the volume, with no open
-- file: `get_security_by_name`, `open`, `create`, `get_volume_info`.
use Prim.Native.Nat.{bit_and}
use netfilum.Prelude.{ℕ, Bool, false, not, Option, none, some}
use netfilum.Prelude.{length, ◌==◌, if◌then◌else◌}
use netfilum.Prelude.Texts.{Text, Bytes, codes}
use netfilum.Prelude.Results.{Run, pure, ◌>>=◌}
use netfilum.Protocol.{EntryKind, file, directory, VolumeInfoData, Request, Response}
use netfilum.Client.Attributes.{FileInfo, fill_file_info, file_attributes_from_attr}
use netfilum.Client.Attributes.{copy_security_descriptor}
use netfilum.Client.Path.{nt_path_to_relative}
use netfilum.Client.Context.{Environment, RpcFsContext, Mounted, RpcFileContext, new_file_context}
use netfilum.Client.Context.{call, other, expect_attr, fetch_attr}

-- `FileSecurity` of winfsp.
pub record FileSecurity : Type 0 where
  pub reparse : Bool
  pub sz_security_descriptor : ℕ
  pub attributes : ℕ

abbrev pub file_directory_file_flag : ℕ
file_directory_file_flag = 0x1

-- `FspCleanupFlags::FspCleanupDelete`
abbrev pub fsp_cleanup_delete : ℕ
fsp_cleanup_delete = 1

abbrev pub is_flagged : ℕ → ℕ → Bool
is_flagged flag flags = not (bit_and flags flag == 0)

abbrev pub created_kind : ℕ → EntryKind
created_kind create_options =
    if is_flagged file_directory_file_flag create_options then directory else file

module _ (E : Environment) (fs : RpcFsContext E) where
  open E use {FspError}

  unfoldable pub get_security_by_name :
      Text
      → Option Bytes
      → Option FileSecurity
      → Run (Mounted E) FspError (FileSecurity × Option Bytes)
  get_security_by_name file_name target (some reparse) = pure (reparse, target)
  get_security_by_name file_name target none = do
    attr ← fetch_attr E (nt_path_to_relative file_name)
    pure (
      record {
        reparse = false;
        sz_security_descriptor = length fs.security_descriptor;
        attributes = file_attributes_from_attr attr;
      },
      copy_security_descriptor fs.security_descriptor target,
    )

  unfoldable pub open_path : Text → Run (Mounted E) FspError (RpcFileContext E × FileInfo)
  open_path file_name = do
    attr ← fetch_attr E (nt_path_to_relative file_name)
    pure (new_file_context E (nt_path_to_relative file_name) attr.kind, fill_file_info attr)

  unfoldable pub create : Text → ℕ → ℕ → ℕ → Run (Mounted E) FspError (RpcFileContext E × FileInfo)
  create file_name create_options file_attributes allocation_size = do
    let path = nt_path_to_relative file_name
    response ←
        call E (Request.create path (created_kind create_options) file_attributes allocation_size)
    attr ← expect_attr E (codes "unexpected create response") response
    pure (new_file_context E path attr.kind, fill_file_info attr)

  unfoldable pub get_volume_info : Run (Mounted E) FspError VolumeInfoData
  get_volume_info = do
    response ← call E Request.get_volume_info
    elim response [
      | Response.volume_info info ↦ pure (record info { label = fs.volume_label })
      | _ ↦ other E (codes "unexpected volume response")
    ]
