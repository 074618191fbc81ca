-- ===== src/Client/Launch/Default.antt =====
-- The default root of crates/netfilum-client/src/main.rs and of crates/netfilum-server/src/main.rs.
use netfilum.Prelude.{◌≡◌, ap, ◌∙◌, Option, some, [], ◌∷◌}
use netfilum.Prelude.Texts.{Text}
use netfilum.Server.Root.{expand_root}
use netfilum.Server.Root.Laws.{HasNoDollar, expand_root-default}
use netfilum.Server.Main.{default_server_args}
use netfilum.Client.Launch.{UpArgs, daemon_command, default_wsl_root}
use netfilum.Client.Launch.Shell.{words, between}
use netfilum.Client.Launch.Quoting.{root_below, daemon_words, words-daemon_command}

-- The shell gives the daemon a root that the daemon takes for its own default one.
abbrev pub HasDefault : Text → Option Text → UpArgs → Text → Type 0
HasDefault home profile args daemon =
    (words home between [] (daemon_command args daemon) ≡ some (daemon_words home args daemon))
    × (expand_root (some home) profile (root_below home args.root)
        ≡ expand_root (some home) profile default_server_args.root)

-- A daemon that `netfilum up` starts with its default root serves the directory that `netfilumd`
-- started by hand serves by default, where the home directory is absolute and has no dollar sign in
-- it.
pub daemon_command-HasDefault :
    (home : Text) (profile : Option Text) (args : UpArgs) (daemon : Text)
    → HasNoDollar home
    → args.root ≡ default_wsl_root
    → HasDefault (b'/' ∷ home) profile args daemon
daemon_command-HasDefault home profile args daemon plain default = (
  words-daemon_command (b'/' ∷ home) args daemon,
  ap (λ r. expand_root (some (b'/' ∷ home)) profile (root_below (b'/' ∷ home) r)) default
      ∙ expand_root-default home profile plain,
)
