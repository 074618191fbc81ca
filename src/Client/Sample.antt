-- ===== src/Client/Sample.antt =====
-- An open file on a disk in memory behind the server, for the tests.
use netfilum.Prelude.{List, [], ◌∷◌, ◌++◌, some}
use netfilum.Prelude.Texts.{Text, codes}
use netfilum.Prelude.Results.{ok, err}
use netfilum.Protocol.{file}
use netfilum.Protocol.Errors.{IoError, ErrorKind}
use netfilum.Server.Fs.Memory.Model.{memory}
use netfilum.Server.Sample.{disk, server}
use netfilum.Client.MountState.{initial}
use netfilum.Client.Context.{Environment, new_file_context}
use netfilum.Client.Served.{served}
use netfilum.Client.Operations.{Opened}

abbrev joined : List Text → Text
joined [] = []
joined (name ∷ names) = name ++ joined names

-- A directory buffer is the list of its names, and reads as the names put together.
abbrev pub winfsp : Environment
winfsp = record {
  World = Unit;
  send = λ request w. (err (record { kind = ErrorKind.not_connected; message = [] }), w);
  FspError = IoError;
  from_io = λ e. e;
  access_denied = record { kind = ErrorKind.permission_denied; message = [] };
  DirBuffer = List Text;
  new_buffer = [];
  acquire = λ reset n b. some [];
  EntryName = Text;
  set_name = λ name. ok name;
  write_entry = λ name info b. (ok tt, b ++ name ∷ []);
  read_entries = λ marker b. joined b;
}

abbrev pub mounted : Environment
mounted = served winfsp memory server

-- The file `b`, which holds `hello`.
abbrev pub opened : Opened mounted
opened = record {
  mounted = record { world = disk; mount_state = initial };
  context = new_file_context mounted (codes "b") file;
}
