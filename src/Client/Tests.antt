-- ===== src/Client/Tests.antt =====
-- Times, attributes, paths, command lines and waiting on the client, and the theorems at concrete
-- inputs.
use mathlib.Core.Option
use netfilum.Prelude.{
  ℕ, ◌+◌, leb, if◌then◌else◌, ◌≡◌, refl, arith, true, none, some, [], ◌∷◌, ◌++◌, map,
}
use netfilum.Prelude.Int.{pos, ◌+ℤ◌}
use netfilum.Prelude.Texts.{Text, codes}
use netfilum.Prelude.Results.{ok, err}
use netfilum.Protocol.{file, FileAttr, FileTimeValue, Response, VolumeInfoData}
use netfilum.Protocol.Errors.{IoError, ErrorKind}
use netfilum.Paths.{normal}
use netfilum.Server.Path.{normalize_relative_path}
use netfilum.Server.Path.Laws.{join_names}
use netfilum.Rpc.{from_password, derive_key}
use netfilum.Rpc.Toy.{toy}
use netfilum.Client.RpcClient.{RpcClient, new_client}
use netfilum.Client.Times
use netfilum.Client.Times.{windows_time_from_wire, wire_time_from_windows}
use netfilum.Client.Path.{windows_path_to_wsl, nt_path_to_relative, to_ascii_lowercase}
use netfilum.Client.Path.Laws.{
  windows_path_to_wsl-join_names, normalize_relative_path-nt_path_to_relative,
}
use netfilum.Client.Launch.{default_wsl_root, UpArgs, System, wait_for_server, daemon_command}
use netfilum.Client.Launch.Default.{HasDefault, daemon_command-HasDefault}
use netfilum.Client.Launch.Shell.{words, between}
use netfilum.Client.Launch.Quoting.{words-daemon_command, daemon_words}
use netfilum.Client.Launch.Waiting.{IsClock, Waited, wait_for_server-Waited}

windows_time_from_wire-wire_time_from_windows_example :
    windows_time_from_wire (wire_time_from_windows 116444736001234567) ≡ 116444736001234567
windows_time_from_wire-wire_time_from_windows_example =
    Times.windows_time_from_wire-wire_time_from_windows 116444736001234567 (omega arith)

-- 123456789 nanoseconds after 1970 began.
abbrev instant : FileTimeValue
instant = record { secs = pos 0; nanos = 123456789 }

wire_time_from_windows-windows_time_from_wire_example :
    wire_time_from_windows (windows_time_from_wire (some instant))
    ≡ some (record { secs = pos 0; nanos = 123456700 })
unfolding windows_time_from_wire ◌+ℤ◌
wire_time_from_windows-windows_time_from_wire_example =
    Times.wire_time_from_windows-windows_time_from_wire instant (omega arith) (ground arith)
      (omega arith) (omega arith)

abbrev locked : FileAttr
locked = record {
  kind = file;
  size = 5;
  allocated_size = 0;
  created = none;
  accessed = none;
  modified = some instant;
  changed = none;
  readonly = true;
  mode = none;
}

windows_path_to_wsl-join_names_example :
    windows_path_to_wsl (b'C' ∷ b':' ∷ b'\\' ∷ join_names b'\\' (codes "Users" ∷ codes "x y" ∷ []))
    ≡ ok (
        codes "/mnt/"
        ++ to_ascii_lowercase b'C' ∷ b'/' ∷ join_names b'/' (codes "Users" ∷ codes "x y" ∷ []))
windows_path_to_wsl-join_names_example =
    windows_path_to_wsl-join_names b'C' b'\\' (codes "Users") (codes "x y" ∷ []) refl
      (refl, (refl, tt))

normalize_relative_path-nt_path_to_relative_example :
    normalize_relative_path
      (nt_path_to_relative (b'\\' ∷ join_names b'\\' (codes "a" ∷ codes "b" ∷ [])))
    ≡ ok (map normal (codes "a" ∷ codes "b" ∷ []))
normalize_relative_path-nt_path_to_relative_example =
    normalize_relative_path-nt_path_to_relative (codes "a") (codes "b" ∷ []) (refl, (refl, tt))

climbing :
    normalize_relative_path (nt_path_to_relative (codes "\\a\\..\\b"))
    ≡ err (codes "path traversal is not allowed")
unfolding normalize_relative_path nt_path_to_relative
climbing = refl

abbrev home : Text
home = codes "/home/ann"

abbrev args : UpArgs
args = record {
  distro = codes "Debian";
  root = codes "/srv/it's";
  mount = codes "N:";
  addr = codes "127.0.0.1:5001";
  volume_label = codes "my disk";
  password = codes "$(reboot)";
}

words-daemon_command_example :
    words home between [] (daemon_command args (codes "/mnt/c/netfilumd"))
    ≡ some (daemon_words home args (codes "/mnt/c/netfilumd"))
words-daemon_command_example = words-daemon_command home args (codes "/mnt/c/netfilumd")

abbrev default_args : UpArgs
default_args = record args { root = default_wsl_root }

daemon_command-HasDefault_example : HasDefault home none default_args (codes "/mnt/c/netfilumd")
daemon_command-HasDefault_example =
    daemon_command-HasDefault (codes "home/ann") none default_args (codes "/mnt/c/netfilumd")
      (refl, (refl, (refl, (refl, (refl, (refl, (refl, (refl, tt)))))))) refl

abbrev refused : IoError
refused = record { kind = ErrorKind.connection_refused; message = codes "refused" }

abbrev volume : VolumeInfoData
volume = record { total_size = 10; free_size = 5; label = codes "netfilum" }

-- The world is the time; the server answers from 45300 on.
abbrev starting : System
starting = record {
  World = ℕ;
  send = λ client request now.
      (if leb 45300 now then ok (Response.volume_info volume) else err refused, now + 3);
  try_wait = λ now. (ok none, now);
  clock = λ now. now;
  sleep = λ n now. now + n;
}

starting-IsClock : IsClock starting
starting-IsClock = record {
  send-le = λ c r w. omega arith;
  try_wait-le = λ w. omega arith;
  sleep-le = λ n w. omega arith;
}

abbrev waiting_client : RpcClient
waiting_client = record { addr = args.addr; timeout = 5; cipher = args.password }

made : new_client toy args.addr args.password ≡ ok waiting_client
unfolding new_client from_password derive_key
made = refl

-- It answers behind 219 turns that are pending.
ready_late :
    Option.map (λ r. r.0) (wait_for_server starting toy 226 args.addr args.password 1000)
    ≡ some (ok tt)
unfolding wait_for_server new_client from_password derive_key
ready_late = refl

wait_for_server-Waited_example :
    Waited starting waiting_client args.addr 46000 225 1000
      (wait_for_server starting toy 226 args.addr args.password 1000)
wait_for_server-Waited_example =
    wait_for_server-Waited starting toy waiting_client args.addr args.password 1000 starting-IsClock
      made
