-- ===== src/Client/Main.antt =====
-- crates/netfilum-client/src/main.rs: the subcommands of `netfilum`. What clap makes of the command
-- line enters as a `Command`.
use netfilum.Prelude.{
  ℕ, ◌≡◌, refl, ap, ◌⊎◌, inl, inr, Option, none, List, [], ◌∷◌, ◌++◌, append_assoc, sym, ◌∙◌,
}
use netfilum.Prelude.Texts.{Text, codes}
use netfilum.Prelude.Results.{Result, ok, err}
use netfilum.Protocol.Errors.{IoResult}
use netfilum.Cli.{error, warning, literal}
use netfilum.Client.Launch.{UpArgs, default_wsl_root, kill, wait}
use netfilum.Client.Run.{
  MountArgs, Calls, Action, says, run_mount, run_up, child_call, run_up-stops,
}

abbrev pub default_addr : Text
default_addr = codes "127.0.0.1:4040"

abbrev pub default_mount : Text
default_mount = codes "N:"

abbrev pub default_volume_label : Text
default_volume_label = codes "netfilum"

abbrev pub default_wsl_distro : Text
default_wsl_distro = codes "Ubuntu"

-- The arguments of `netfilum up` where no option is given.
abbrev pub default_up_args : UpArgs
default_up_args = record {
  distro = default_wsl_distro;
  root = default_wsl_root;
  mount = default_mount;
  addr = default_addr;
  volume_label = default_volume_label;
  password = [];
}

-- The arguments of `netfilum mount` where no option is given.
abbrev pub default_mount_args : MountArgs
default_mount_args = record {
  mount = default_mount;
  addr = default_addr;
  volume_label = default_volume_label;
  password = [];
}

pub data Command : Type 0 where
  up : UpArgs → Command
  mount : MountArgs → Command

abbrev pub password_of : Command → Text
password_of (up args) = args.password
password_of (mount args) = args.password

abbrev pub empty_password : Text → Action
empty_password label =
    says warning label
      (literal (codes "using an empty password; transport encryption is easy to guess") ∷ [])

abbrev pub warn_if_empty_password : Text → Text → List Action
warn_if_empty_password label [] = empty_password label ∷ []
warn_if_empty_password label (c ∷ password) = []

-- What the calls of the two subcommands give.
pub record Outcomes : Type 0 where
  pub spawn : Result Text (Unit {0})
  pub waited : Result Text (Unit {0})
  pub calls : Calls
  pub child : IoResult (Option Text)

unfoldable pub run : Command → Outcomes → Result Text (Unit {0}) × List Action
run (up args) o =
    let (result, done) = run_up args o.spawn o.waited o.calls o.child in
    (result, warn_if_empty_password (codes "up") args.password ++ done)
run (mount args) o =
    let (result, done) = run_mount args o.calls in
    (result, warn_if_empty_password (codes "mount") args.password ++ done)

abbrev pub reports : Text → Action
reports e = says error (codes "error") (literal e ∷ [])

-- The exit code of the process, and what it has done.
abbrev pub finish : Result Text (Unit {0}) → List Action → ℕ × List Action
finish (ok u) done = (0, done)
finish (err e) done = (1, done ++ reports e ∷ [])

unfoldable pub main : Command → Outcomes → ℕ × List Action
unfolding run
main command o = let (result, done) = run command o in finish result done

-- The child is killed and waited for, and then nothing is done but that an error is printed, with which
-- the process exits with 1.
abbrev pub HasStopped : Result Text (Unit {0}) → ℕ × List Action → Type 0
HasStopped result (code, done) =
    (before : List Action) × ((result ≡ ok tt)
        × (code ≡ 0)
        × (done ≡ before ++ child_call kill ∷ child_call wait ∷ [])
      ⊎ (e : Text) × (result ≡ err e)
        × (code ≡ 1)
        × (done ≡ before ++ child_call kill ∷ child_call wait ∷ reports e ∷ []))

finish-HasStopped :
    (result : Result Text (Unit {0})) (done before : List Action)
    → done ≡ before ++ child_call kill ∷ child_call wait ∷ []
    → HasStopped result (finish result done)
finish-HasStopped (ok tt) done before h = (before, inl (refl, refl, h))
finish-HasStopped (err e) done before h = (
  before,
  inr (
    e,
    refl,
    refl,
    ap (λ r. r ++ reports e ∷ []) h
        ∙ append_assoc before (child_call kill ∷ child_call wait ∷ []) (reports e ∷ []),
  ),
)

-- A run of `netfilum up` whose server was started, and still runs at the end, kills the server and
-- waits for it, whether the wait for it and the mount succeed or fail. After that it only prints the
-- error, if there is one; the exit code is 0 without an error and 1 with one.
pub main-HasStopped :
    (args : UpArgs) (o : Outcomes)
    → o.spawn ≡ ok tt
    → o.child ≡ ok none
    → HasStopped (run (up args) o).0 (main (up args) o)
unfolding main run
main-HasStopped args o started running =
    let (done, ends) = run_up-stops args o.waited o.calls in
    let warned = warn_if_empty_password (codes "up") args.password in
    let last = child_call kill ∷ child_call wait ∷ [] in
    let whole : (run (up args) o).1 ≡ (warned ++ done) ++ last =
      rw (started, running) (ap (λ r. warned ++ r) ends ∙ sym (append_assoc warned done last)) in
    finish-HasStopped (run (up args) o).0 (run (up args) o).1 (warned ++ done) whole
