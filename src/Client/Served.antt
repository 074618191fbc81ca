-- ===== src/Client/Served.antt =====
-- The client's operations with the server of crates/netfilum-server/src/server.rs behind them: a
-- request reaches `dispatch`, and the answer comes back as `RpcClient::send` gives it.
use netfilum.Prelude.Results.{Run, map_err}
use netfilum.Protocol.{Request, Response}
use netfilum.Protocol.Errors.{IoError, to_io_error}
use netfilum.Server.Fs.{Fs}
use netfilum.Server.Resolve.{RpcServer}
use netfilum.Server.Dispatch.{dispatch}
use netfilum.Client.Context.{Environment}

-- What winfsp gives is that of `E`, and the requests go where `send` says.
abbrev pub answered_by :
    Environment → (World : Type 0) → (Request → Run World IoError Response) → Environment
answered_by E World send = record {
  World = World;
  send = send;
  FspError = E.FspError;
  from_io = E.from_io;
  access_denied = E.access_denied;
  DirBuffer = E.DirBuffer;
  new_buffer = E.new_buffer;
  acquire = E.acquire;
  EntryName = E.EntryName;
  set_name = E.set_name;
  write_entry = E.write_entry;
  read_entries = E.read_entries;
}

abbrev pub served : Environment → Fs → RpcServer → Environment
served E F server =
    answered_by E F.State
      λ request s. let (r, t) = dispatch F server request s in (map_err to_io_error r, t)
