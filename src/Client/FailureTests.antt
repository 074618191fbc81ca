-- ===== src/Client/FailureTests.antt =====
-- Operations that fail on a disk in memory behind the server, and the theorems at these inputs.
use netfilum.Prelude.{◌≡◌, refl, true, false, some, []}
use netfilum.Prelude.Texts.{codes}
use netfilum.Prelude.Results.{ok}
use netfilum.Protocol.{file, Request, Response}
use netfilum.Protocol.Errors.{IoError, ErrorKind, to_io_error}
use netfilum.Paths.{join, path_starts_with}
use netfilum.Server.Path.{normalize_relative_path}
use netfilum.Server.Fs.Memory.{find, slot_at}
use netfilum.Server.Fs.Memory.Model.{memory}
use netfilum.Server.Sample.{disk, server}
use netfilum.Server.Attributes.{attr_for_path, filesystem_capacity}
use netfilum.Server.Resolve.{resolve_existing}
use netfilum.Server.Files.{stat_path}
use netfilum.Server.Dispatch.{dispatch}
use netfilum.Server.Dispatch.Typed.{Shape, shape_of, dispatch-answer_shape}
use netfilum.Client.Context.{Environment, RpcFsContext, new_file_context, send_request, fetch_attr}
use netfilum.Client.Sample.{winfsp, mounted, opened}
use netfilum.Client.Operations.{Opened, write}
use netfilum.Client.Operations.Performed.{Operation}
use netfilum.Client.Operations.Reported.{Reported}
use netfilum.Client.Operations.Failures.{failure, failure-Reported}
use netfilum.Client.Operations.Offline.{offline, Offline, replying-Offline}
use netfilum.Client.MountState.{initial}
use netfilum.Client.Operations.Requests.{Asked}

abbrev context : RpcFsContext mounted
context = record { security_descriptor = codes "O:"; volume_label = codes "netfilum" }

-- Another client has removed the file.
abbrev lost : Opened mounted
lost = record opened { context = new_file_context mounted (codes "gone") file }

abbrev writing : Operation
writing = Operation.write (codes "ab") 1 false true

abbrev not_found : IoError
not_found = record { kind = ErrorKind.not_found; message = codes "os error" }

failing : failure mounted context writing lost ≡ some not_found
unfolding write fetch_attr send_request dispatch stat_path resolve_existing normalize_relative_path
    join path_starts_with find slot_at attr_for_path to_io_error
failing = refl

failure-Reported_example :
    Reported winfsp memory server (Asked (codes "gone") file writing) not_found
failure-Reported_example =
    failure-Reported winfsp memory server context writing lost not_found failing

abbrev volume : Response
volume =
    Response.volume_info
      (record { total_size = 409600; free_size = 245760; label = codes "netfilum" })

measured : (dispatch memory server Request.get_volume_info disk).0 ≡ ok volume
unfolding dispatch filesystem_capacity
measured = refl

dispatch-answer_shape_example : shape_of volume ≡ Shape.volume_info
dispatch-answer_shape_example =
    dispatch-answer_shape memory server Request.get_volume_info disk volume measured

abbrev refused : IoError
refused = record { kind = ErrorKind.connection_refused; message = codes "refused" }

abbrev nowhere : Environment
nowhere = offline refused winfsp

abbrev idle : Opened nowhere
idle = record {
  mounted = record { world = tt; mount_state = initial };
  context = new_file_context nowhere (codes "b") file;
}

abbrev bare : RpcFsContext nowhere
bare = record { security_descriptor = []; volume_label = codes "disk" }

-- A read returns the error; that the server is gone is not noted.
replying-Offline_example : Offline winfsp refused bare (Operation.read (codes "....") 0) idle
replying-Offline_example =
    replying-Offline winfsp refused bare (Operation.read (codes "....") 0) idle
