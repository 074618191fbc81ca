-- ===== src/Server/Resolve.antt =====
-- crates/netfilum-server/src/server.rs: the server's record, and how it turns a path of a request
-- into one of the disk: `ensure_within_root`, `resolve_existing`, `resolve_for_new_path`.
pub mod Laws
use netfilum.Prelude.{Option, none, some, if◌then◌else◌}
use netfilum.Prelude.Texts.{Text, Bytes, codes}
use netfilum.Prelude.Results.{
  Result, ok, err, Run, gets, lift, with_err, map_err, pure, ◌>>=◌, ◌>>◌,
}
use netfilum.Protocol.{ErrorCode, RpcError, RpcResult}
use netfilum.Protocol.Errors.{rpc_error_from}
use netfilum.Paths.{PathBuf, join, parent, path_starts_with}
use netfilum.Server.Path.{normalize_relative_path}
use netfilum.Server.Fs.{Fs}
use netfilum.Server.Attributes.{ask}

pub record RpcServer : Type 0 where
  pub root : PathBuf
  pub root_real : PathBuf
  pub volume_label : Text
  pub cipher : Bytes

unfoldable pub ensure_within_root : RpcServer → PathBuf → RpcResult Unit
ensure_within_root server path =
    if path_starts_with path server.root_real
    then ok tt
    else err (record {
      code = ErrorCode.permission_denied;
      message = codes "path escapes the exported root";
    })

-- `normalize_relative_path(relative)` with its message as an `InvalidInput` error, and the join.
unfoldable pub joined_path : RpcServer → Text → RpcResult PathBuf
joined_path server relative = elim (normalize_relative_path relative) [
  | ok p ↦ ok (join server.root p)
  | err message ↦ err (record { code = ErrorCode.invalid_input; message = message })
]

-- `joined.parent().unwrap_or(&self.root)`
abbrev pub parent_or_root : RpcServer → PathBuf → PathBuf
parent_or_root server joined = elim (parent joined) [ some p ↦ p | none ↦ server.root ]

module _ (F : Fs) (server : RpcServer) where
  unfoldable pub resolve_existing : Text → Run F.State RpcError PathBuf
  unfolding joined_path ensure_within_root
  resolve_existing relative = do
    joined ← lift (joined_path server relative)
    resolved ← ask F (F.canonicalize joined)
    lift (ensure_within_root server resolved)
    pure joined

  unfoldable pub resolve_for_new_path : Text → Run F.State RpcError PathBuf
  unfolding joined_path ensure_within_root
  resolve_for_new_path relative = do
    joined ← lift (joined_path server relative)
    resolved_parent ← ask F (F.canonicalize (parent_or_root server joined))
    lift (ensure_within_root server resolved_parent)
    pure joined
