-- ===== src/Client/RunTests.antt =====
-- A run of `netfilum up`, and the theorems at this input.
use netfilum.Prelude.{◌≡◌, refl, none, []}
use netfilum.Prelude.Texts.{codes}
use netfilum.Prelude.Results.{ok, err}
use netfilum.Protocol.{Response}
use netfilum.Client.MountState.{server_disconnected}
use netfilum.Client.Launch.{UpArgs}
use netfilum.Client.Main.{Command, Outcomes, HasStopped, run, main, main-HasStopped}
use netfilum.Client.Run.{MountArgs, Calls, run_mount, choose_label}

-- All calls succeed, and the server goes away.
abbrev calls : Calls
calls = record {
  winfsp_init = ok tt;
  new_client = ok tt;
  build_security_descriptor = ok tt;
  volume_info =
      ok (Response.volume_info (record { total_size = 10; free_size = 5; label = codes "disk" }));
  spawn_monitor = ok tt;
  new_host = ok tt;
  start = ok tt;
  mount = ok tt;
  shutdown = ok (server_disconnected (codes "lost"));
}

abbrev args : MountArgs
args = record {
  mount = codes "N:";
  addr = codes "127.0.0.1:5001";
  volume_label = [];
  password = [];
}

mounted : (run_mount args calls).0 ≡ ok tt
unfolding run_mount choose_label
mounted = refl

abbrev up_args : UpArgs
up_args = record {
  distro = codes "Debian";
  root = codes "/srv";
  mount = codes "N:";
  addr = codes "127.0.0.1:5001";
  volume_label = [];
  password = [];
}

-- The server is started, but the wait for it times out.
abbrev outcomes : Outcomes
outcomes = record {
  spawn = ok tt;
  waited = err (codes "timed out");
  calls = calls;
  child = ok none;
}

main-HasStopped_example :
    HasStopped (run (Command.up up_args) outcomes).0 (main (Command.up up_args) outcomes)
main-HasStopped_example = main-HasStopped up_args outcomes refl refl
