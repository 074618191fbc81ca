-- ===== src/Client/Run.antt =====
-- crates/netfilum-client/src/mount.rs: `run_mount`, `run_up` and `sibling_daemon_path`, as the order of
-- their calls. What a call gives enters as an argument.
use netfilum.Prelude.{
  ℕ, ◌≡◌, ap, arith, Bool, true, false, Option, none, some, List, [], ◌∷◌, map, inl, inr, ◌++◌,
  if◌then◌else◌, append_assoc, sym,
}
use netfilum.Prelude.Texts.{Text, codes}
use netfilum.Prelude.Results.{Result, ok, err, Result-cases}
use netfilum.Cli.{Level, info, warning, Piece, literal, marked, Printed}
use netfilum.Protocol.{Response}
use netfilum.Protocol.Errors.{IoResult}
use netfilum.Client.MountState.{ShutdownReason, server_disconnected, interrupted}
use netfilum.Client.Launch.{UpArgs, ChildCall, kill, wait, stop_wsl_server}

pub record MountArgs : Type 0 where
  pub mount : Text
  pub addr : Text
  pub volume_label : Text
  pub password : Text

abbrev is_empty : Text → Bool
is_empty [] = true
is_empty (c ∷ t) = false

-- The label of the volume, from the arguments and the server's answer.
unfoldable pub choose_label : MountArgs → IoResult Response → Result Text Text
choose_label args (ok (Response.volume_info volume)) =
    ok (if is_empty args.volume_label then volume.label else args.volume_label)
choose_label args (ok _) = err (codes "unexpected response while querying volume info")
choose_label args (err error) =
    err (codes "failed to contact RPC server at " ++ (args.addr ++ (codes ": " ++ error.message)))

-- `VolumeParams`, as far as `run_mount` sets it. The timeouts are in milliseconds.
pub record VolumeParams : Type 0 where
  pub filesystem_name : Text
  pub case_sensitive_search : Bool
  pub case_preserved_names : Bool
  pub unicode_on_disk : Bool
  pub flush_and_purge_on_cleanup : Bool
  pub post_cleanup_when_modified_only : Bool
  pub post_disposition_only_when_necessary : Bool
  pub supports_posix_unlink_rename : Bool
  pub sector_size : ℕ
  pub sectors_per_allocation_unit : ℕ
  pub max_component_length : ℕ
  pub file_info_timeout : ℕ
  pub dir_info_timeout : ℕ
  pub volume_info_timeout : ℕ
  pub security_timeout : ℕ

abbrev pub volume_params : VolumeParams
volume_params = record {
  filesystem_name = codes "netfilum";
  case_sensitive_search = true;
  case_preserved_names = true;
  unicode_on_disk = true;
  flush_and_purge_on_cleanup = true;
  post_cleanup_when_modified_only = false;
  post_disposition_only_when_necessary = true;
  supports_posix_unlink_rename = true;
  sector_size = 4096;
  sectors_per_allocation_unit = 1;
  max_component_length = 255;
  file_info_timeout = 1000;
  dir_info_timeout = 1000;
  volume_info_timeout = 1000;
  security_timeout = 1000;
}

-- What `run_mount` and `run_up` do to the host, the monitor, the child and the terminal, in order.
pub data Action : Type 0 where
  prints : Printed → Action
  start_monitor : Action
  create_host : VolumeParams → Action
  start_host : Action
  mount_host : Text → Action
  unmount stop_host stop_monitor join_monitor : Action
  spawn_server : Action
  child_call : ChildCall → Action

abbrev pub says : Level → Text → List Piece → Action
says level label message = prints (record { level = level; label = label; message = message })

-- The outcomes of the calls that can fail, in the order in which they are made.
pub record Calls : Type 0 where
  pub winfsp_init : Result Text (Unit {0})
  pub new_client : Result Text (Unit {0})
  pub build_security_descriptor : Result Text (Unit {0})
  pub volume_info : IoResult Response
  pub spawn_monitor : Result Text (Unit {0})
  pub new_host : Result Text (Unit {0})
  pub start : Result Text (Unit {0})
  pub mount : Result Text (Unit {0})
  pub shutdown : Result Text ShutdownReason

abbrev reported : ShutdownReason → List Action
reported (server_disconnected text) = says warning (codes "mount") (literal text ∷ []) ∷ []
reported interrupted = []

abbrev pub farewell : MountArgs → ShutdownReason → List Action
farewell args reason =
    reported reason
    ++ says info (codes "mount") (literal (codes "unmounting ") ∷ marked args.mount ∷ [])
      ∷ unmount
      ∷ stop_host
      ∷ stop_monitor
      ∷ join_monitor
      ∷ []

abbrev pub connecting : MountArgs → Action
connecting args =
    says info (codes "mount") (literal (codes "connecting to ") ∷ marked args.addr ∷ [])

-- The dash of the message is three bytes in UTF-8.
abbrev pub mounted_on : Text → Text → Action
mounted_on label mount = says info (codes "mount") (
    marked label
    ∷ literal (codes " mounted on ")
    ∷ marked mount
    ∷ literal (codes " " ++ (226 ∷ 128 ∷ 148 ∷ codes " Ctrl+C to unmount"))
    ∷ [])

-- A call, and what follows where it succeeds.
abbrev after :
    {A : Type 0}
    → Result Text A
    → (A → Result Text (Unit {0}) × List Action)
    → Result Text (Unit {0}) × List Action
after (ok a) f = f a
after (err e) f = (err e, [])

abbrev did : Action → Result Text (Unit {0}) × List Action → Result Text (Unit {0}) × List Action
did a (r, done) = (r, a ∷ done)

unfoldable pub run_mount : MountArgs → Calls → Result Text (Unit {0}) × List Action
unfolding choose_label
run_mount args c = did (connecting args) (
    after c.winfsp_init λ _. after c.new_client λ _. after c.build_security_descriptor λ _.
      after (choose_label args c.volume_info) λ volume_label. after c.spawn_monitor λ _.
        did start_monitor (
          after c.new_host λ _. did (create_host volume_params) (
            after c.start λ _. did start_host (
              after c.mount λ _. did (mount_host args.mount) (
                did (mounted_on volume_label args.mount)
                  (after c.shutdown λ reason. (ok tt, farewell args reason)))))))

-- `sibling_daemon_path`: the directory of the executable, if it has one, and whether the daemon is a
-- file there.
unfoldable pub sibling_daemon_path :
    (join_daemon : Text → Text) (is_file : Text → Bool)
    → Result Text Text
    → (Text → Option Text)
    → Result Text Text
sibling_daemon_path join_daemon is_file (err e) parent = err e
sibling_daemon_path join_daemon is_file (ok current_exe) parent = elim (parent current_exe) [
  | none ↦ err (codes "failed to determine executable directory for " ++ current_exe)
  | some exe_dir ↦
      let daemon = join_daemon exe_dir in
      if is_file daemon
      then ok daemon
      else err (codes "`netfilum up` requires a sibling Linux daemon binary at " ++ daemon)
]

abbrev mount_args : UpArgs → MountArgs
mount_args args = record {
  mount = args.mount;
  addr = args.addr;
  volume_label = args.volume_label;
  password = args.password;
}

abbrev launching : UpArgs → Action
launching args = says info (codes "up") (
    literal (codes "launching server in WSL ")
    ∷ marked args.distro
    ∷ literal (codes " at ")
    ∷ marked args.addr
    ∷ [])

abbrev stopping : Action
stopping = says info (codes "up") (literal (codes "stopping server") ∷ [])

-- The closure of `run_up`, where `waited` is the outcome of `wait_for_server`.
abbrev ready_and_mounted :
    UpArgs → Result Text (Unit {0}) → Calls → Result Text (Unit {0}) × List Action
ready_and_mounted args waited c =
    did (says info (codes "up") (literal (codes "waiting for server at ") ∷ marked args.addr ∷ []))
      (after waited λ _.
        did (says info (codes "up") (literal (codes "server ready") ∷ []))
          (run_mount (mount_args args) c))

-- `spawn` and `waited` are the outcomes of `spawn_wsl_server` and `wait_for_server`, and `child` is what
-- `try_wait` says of the child at the end.
unfoldable pub run_up :
    UpArgs
    → (spawn waited : Result Text (Unit {0})) → Calls
    → (child : IoResult (Option Text)) → Result Text (Unit {0}) × List Action
unfolding stop_wsl_server run_mount
run_up args spawn waited c child = did (launching args) (
    after spawn λ _.
      let (result, done) = ready_and_mounted args waited c in
      (result, spawn_server ∷ done ++ stopping ∷ map child_call (stop_wsl_server child)))

-- A server that was started, and that still runs at the end, is killed and waited for as the last thing
-- that `run_up` does, whether the wait for it and the mount succeed or fail; the result is theirs.
pub run_up-stops :
    (args : UpArgs) (waited : Result Text (Unit {0})) (c : Calls)
    → (done : List Action) × ((run_up args (ok tt) waited c (ok none)).1
        ≡ done ++ child_call kill ∷ child_call wait ∷ [])
unfolding run_up
run_up-stops args waited c = (
  launching args ∷ spawn_server ∷ (ready_and_mounted args waited c).1 ++ stopping ∷ [],
  ap (λ r. launching args ∷ spawn_server ∷ r)
      (sym (
        append_assoc (ready_and_mounted args waited c).1 (stopping ∷ [])
          (child_call kill ∷ child_call wait ∷ []))),
)

-- Where `run_mount` succeeds, the file system was mounted where the arguments say, under the label that
-- was chosen, and the last things done are to unmount, to stop the host, and to stop the monitor and
-- wait for its thread.
pub run_mount-unmounts :
    (args : MountArgs) (c : Calls)
    → (run_mount args c).0 ≡ ok tt
    → (label : Text) × (reason : ShutdownReason) × (choose_label args c.volume_info ≡ ok label)
      × (c.shutdown ≡ ok reason)
      × ((run_mount args c).1
          ≡ connecting args
            ∷ start_monitor
            ∷ create_host volume_params
            ∷ start_host
            ∷ mount_host args.mount
            ∷ mounted_on label args.mount
            ∷ farewell args reason)
unfolding run_mount
run_mount-unmounts args c h = elim (Result-cases c.shutdown) [
  | inr (x, e) ↦ absurd (ground arith)
  | inl (reason, e) ↦ elim (Result-cases (choose_label args c.volume_info)) [
    | inr (x, f) ↦ absurd (ground arith)
    | inl (label, f) ↦ (label, reason, f, e, ground arith)
  ]
]
