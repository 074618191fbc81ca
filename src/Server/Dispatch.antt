-- ===== src/Server/Dispatch.antt =====
-- crates/netfilum-server/src/server.rs: `RpcServer::new` and `RpcServer::dispatch`.
pub mod Guards
pub mod Queries
pub mod Typed
use netfilum.Prelude.{Option, some}
use netfilum.Prelude.Texts.{Text, Bytes}
use netfilum.Prelude.Results.{
  Result, ok, err, Run, gets, lift, pure, with_err, map_err, ◌>>=◌, ◌>>◌,
}
use netfilum.Protocol.{Request, Response, RpcError}
use netfilum.Protocol.Errors.{IoError, IoResult, rpc_error_from}
use netfilum.Paths.{PathBuf}
use netfilum.Server.Fs.{Fs}
use netfilum.Server.Attributes.{ask, filesystem_capacity}
use netfilum.Server.Resolve.{RpcServer}
use netfilum.Server.Files

module _ (F : Fs) where
  open F use {State}

  -- `from_password` is `RpcCipher::from_password`.
  unfoldable pub new_server :
      (from_password : Text → IoResult Bytes) → PathBuf → Text → Text → Run State IoError RpcServer
  new_server from_password root volume_label password = do
    F.create_dir_all root
    root_real ← gets (F.canonicalize root)
    cipher ← lift (from_password password)
    pure (record {
      root = root;
      root_real = root_real;
      volume_label = volume_label;
      cipher = cipher;
    })

module _ (F : Fs) (server : RpcServer) where
  open F use {State}

  unfoldable pub dispatch : Request → Run State RpcError Response
  dispatch (Request.stat path) = do a ← Files.stat_path F server path; pure (Response.attr a)
  dispatch (Request.open_path path) = do a ← Files.stat_path F server path; pure (Response.attr a)
  dispatch (Request.create path kind file_attributes allocation_size) = do
    a ← Files.create_entry F server path kind allocation_size
    pure (Response.attr a)
  dispatch (Request.read_dir path) = do
    entries ← Files.read_dir F server path
    pure (Response.dir_entries entries)
  dispatch (Request.read path offset len) = do
    bytes ← Files.read_file F server path offset len
    pure (Response.payload bytes)
  dispatch (Request.write path offset payload write_to_eof) =
      Files.write_file F server path offset payload write_to_eof
  dispatch (Request.can_delete path kind) = do
    Files.can_delete F server path kind
    pure Response.empty
  dispatch (Request.remove_file path) = do Files.remove_file F server path; pure Response.empty
  dispatch (Request.remove_dir path) = do Files.remove_dir F server path; pure Response.empty
  dispatch (Request.rename path new_path replace_if_exists) = do
    Files.rename F server path new_path replace_if_exists
    pure Response.empty
  dispatch (Request.set_len path size set_allocation_size) = do
    a ← Files.set_len F server path size set_allocation_size
    pure (Response.attr a)
  dispatch (Request.flush path) = do Files.flush F server path; pure Response.empty
  dispatch (Request.set_basic_info path update) = do
    a ← Files.set_basic_info F server path update
    pure (Response.attr a)
  dispatch Request.get_volume_info = do
    c ← ask F (filesystem_capacity F server.root_real)
    pure (
        Response.volume_info
          (record { total_size = c.0; free_size = c.1; label = server.volume_label }))
