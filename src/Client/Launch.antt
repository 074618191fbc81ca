-- ===== src/Client/Launch.antt =====
-- crates/netfilum-client/src/mount.rs: the server in WSL that `netfilum up` starts, waits for and
-- stops. Processes, the clock and the requests enter as arguments.
pub mod Shell
pub mod Quoting
pub mod Default
pub mod Waiting
use netfilum.Prelude.{
  ℕ, zero, suc, ◌+◌, Bool, true, false, Option, none, some, List, [], ◌∷◌, ◌++◌, leb, ◌==◌,
  if◌then◌else◌,
}
use netfilum.Prelude.Texts.{Text, codes, text_eq}
use netfilum.Prelude.Results.{Result, ok, err, Run, and_then, map_err}
use netfilum.Protocol.{Request, Response}
use netfilum.Rpc.{Crypto}
use netfilum.Client.RpcClient.{RpcClient, new_client}
use netfilum.Protocol.Errors.{IoError, IoResult}
use netfilum.Client.Path.{windows_path_to_wsl}

-- `UpArgs` of crates/netfilum-client/src/main.rs; the address as it is printed.
pub record UpArgs : Type 0 where
  pub distro : Text
  pub root : Text
  pub mount : Text
  pub addr : Text
  pub volume_label : Text
  pub password : Text

abbrev pub default_wsl_root : Text
default_wsl_root = codes "/home/$USER/netfilum-root"

abbrev pub quote_byte : ℕ → Text
quote_byte c = if c == b'\'' then codes "'\"'\"'" else c ∷ []

-- `value.replace('\'', "'\"'\"'")`
unfoldable pub escape_quotes : Text → Text
escape_quotes [] = []
escape_quotes (c ∷ t) = quote_byte c ++ escape_quotes t

unfoldable pub shell_quote : Text → Text
unfolding escape_quotes
shell_quote value = codes "'" ++ (escape_quotes value ++ codes "'")

abbrev pub root_word : Text → Text
root_word root =
    if text_eq root default_wsl_root then codes "\"$HOME/netfilum-root\"" else shell_quote root

-- The command line behind `set -e; exec `.
unfoldable pub daemon_command : UpArgs → Text → Text
daemon_command args daemon_wsl =
    shell_quote daemon_wsl
    ++ (codes " --root "
        ++ (root_word args.root
            ++ (codes " --addr "
                ++ (shell_quote args.addr
                    ++ (codes " --volume-label "
                        ++ (shell_quote args.volume_label
                            ++ (codes " --password " ++ shell_quote args.password)))))))

-- What `spawn_wsl_server` runs, or its error: the arguments of `wsl.exe`. `sibling_daemon` is the
-- outcome of `sibling_daemon_path`.
unfoldable pub wsl_arguments : UpArgs → Result Text Text → Result Text (List Text)
wsl_arguments args sibling_daemon = and_then sibling_daemon λ daemon.
    and_then
      (map_err (λ e. codes "failed to map daemon path into WSL: " ++ e)
        (windows_path_to_wsl daemon))
      λ daemon_wsl. ok (
        codes "-d"
        ∷ args.distro
        ∷ codes "sh"
        ∷ codes "-lc"
        ∷ (codes "set -e; exec " ++ daemon_command args daemon_wsl)
        ∷ [])

-- What the wait for the server uses of the operating system: the requests of a client, the child's
-- state, the clock in milliseconds, and `thread::sleep`.
pub record System : Type 1 where
  pub World : Type 0
  pub send : RpcClient → Request → Run World IoError Response
  pub try_wait : Run World IoError (Option Text)
  pub clock : World → ℕ
  pub sleep : ℕ → World → World

-- In milliseconds.
abbrev pub shutdown_poll : ℕ
shutdown_poll = 200

abbrev pub server_ready_timeout : ℕ
server_ready_timeout = 45000

abbrev pub Outcome : Type 0
Outcome = Result Text (Unit {0})

abbrev pub exited_text : Text → Text
exited_text status = codes "WSL server exited before becoming ready: " ++ status

abbrev pub timed_out_text : Text → IoError → Text
timed_out_text addr error =
    codes "timed out waiting for RPC server at " ++ (addr ++ (codes ": " ++ error.message))

abbrev pub unexpected_text : Text
unexpected_text = codes "unexpected response while waiting for RPC server"

module _ (Y : System) where
  -- The rest of a turn behind the client's error, with what `try_wait` says; `none` goes on.
  abbrev pub check_child :
      Text → (deadline : ℕ) → IoError → IoResult (Option Text) → Y.World → Option Outcome
  check_child addr deadline error (err e) w = some (err e.message)
  check_child addr deadline error (ok (some status)) w = some (err (exited_text status))
  check_child addr deadline error (ok none) w =
      if leb deadline (Y.clock w) then some (err (timed_out_text addr error)) else none

  abbrev pub check_answer :
      Text → (deadline : ℕ) → IoResult Response → Y.World → Option Outcome × Y.World
  check_answer addr deadline (ok (Response.volume_info volume)) w = (some (ok tt), w)
  check_answer addr deadline (ok _) w = (some (err unexpected_text), w)
  check_answer addr deadline (err error) w =
      let (child, v) = Y.try_wait w in (check_child addr deadline error child v, v)

  -- One turn of the loop of `wait_for_server`, up to the sleep.
  unfoldable pub wait_turn : RpcClient → Text → (deadline : ℕ) → Y.World → Option Outcome × Y.World
  wait_turn client addr deadline w =
      let (answer, v) = Y.send client Request.get_volume_info w in
      check_answer addr deadline answer v

  -- The loop; `none` where it has not returned after that many turns.
  unfoldable pub wait_loop :
      ℕ → RpcClient → Text → (deadline : ℕ) → Y.World → Option (Outcome × Y.World)
  unfolding wait_turn
  wait_loop zero client addr deadline w = none
  wait_loop (suc n) client addr deadline w =
      let (verdict, v) = wait_turn client addr deadline w in
      elim verdict [
        | some outcome ↦ some (outcome, v)
        | none ↦ wait_loop n client addr deadline (Y.sleep shutdown_poll v)
      ]

  unfoldable pub wait_for_server :
      Crypto → ℕ → Text → (password : Text) → Y.World → Option (Outcome × Y.World)
  unfolding wait_loop
  wait_for_server C turns addr password w = elim (new_client C addr password) [
    | err e ↦ some (err e.message, w)
    | ok client ↦ wait_loop turns client addr (Y.clock w + server_ready_timeout) w
  ]

-- The calls of `stop_wsl_server` on the child, in order.
pub data ChildCall : Type 0 where
  kill wait : ChildCall

unfoldable pub stop_wsl_server : IoResult (Option Text) → List ChildCall
stop_wsl_server (ok (some status)) = []
stop_wsl_server (err e) = []
stop_wsl_server (ok none) = kill ∷ wait ∷ []
