-- ===== src/Server/Main.antt =====
-- crates/netfilum-server/src/main.rs: `netfilumd`, and what it prints as `run` and `serve` of
-- crates/netfilum-server/src/server.rs do. What clap makes of the command line enters as `ServerArgs`.
use netfilum.Prelude.{ℕ, ◌≡◌, Option, none, some, List, [], ◌∷◌, ◌++◌, length}
use netfilum.Prelude.Texts.{Text, Bytes, codes}
use netfilum.Prelude.Results.{Result}
use netfilum.Protocol.{Request, Response, RpcResult}
use netfilum.Protocol.Errors.{IoError}
use netfilum.Cli.{Printed, info, warning, error, literal, marked}
use netfilum.Rpc.{Codec, Crypto, Wire}
use netfilum.Server.Fs.{Fs}
use netfilum.Server.Resolve.{RpcServer}
use netfilum.Server.Root.{run}
use netfilum.Server.Serve.{Accepted, Serving, waiting, blocked, stopped, Outcome, warned, serve}
use netfilum.Server.Serve.Laws.{streams}

pub record ServerArgs : Type 0 where
  pub root : Text
  pub addr : Text
  pub volume_label : Text
  pub password : Text

-- The arguments where no option is given.
abbrev pub default_server_args : ServerArgs
default_server_args = record {
  root = codes "/home/$USER/netfilum-root";
  addr = codes "127.0.0.1:4040";
  volume_label = codes "netfilum";
  password = [];
}

abbrev server_warning : Text → Printed
server_warning text = record {
  level = warning;
  label = codes "server";
  message = literal text ∷ [];
}

abbrev pub warn_if_empty_password : Text → List Printed
warn_if_empty_password [] =
    server_warning (codes "using an empty password; transport encryption is easy to guess") ∷ []
warn_if_empty_password (c ∷ password) = []

-- The first line of `run`; `shown_root` is the root as `display` prints it.
abbrev pub serving : Text → ServerArgs → Printed
serving shown_root args = record {
  level = info;
  label = codes "serving";
  message =
      marked shown_root
      ∷ literal (codes " on ")
      ∷ marked args.addr
      ∷ literal (codes " as ")
      ∷ marked args.volume_label
      ∷ [];
}

-- What `serve` prints of a connection.
abbrev pub connection_line : Outcome → List Printed
connection_line (warned e) = server_warning (codes "connection failed: " ++ e.message) ∷ []
connection_line _ = []

unfoldable pub connection_lines : List Outcome → List Printed
connection_lines [] = []
connection_lines (o ∷ os) = connection_line o ++ connection_lines os

-- The exit code, once `run` has returned, and the error.
abbrev pub exit_code : Serving → Option ℕ
exit_code waiting = none
exit_code blocked = none
exit_code (stopped e) = some 1

abbrev pub last_line : Serving → List Printed
last_line waiting = []
last_line blocked = []
last_line (stopped e) =
    record { level = error; label = codes "error"; message = literal e.message ∷ [] } ∷ []

-- The root, the address and the label that a daemon shows.
abbrev root_line : Text → ServerArgs → Printed
root_line shown_root args = record {
  level = info;
  label = codes "serving";
  message =
      marked shown_root
      ∷ literal (codes " on ")
      ∷ marked args.addr
      ∷ literal (codes " as ")
      ∷ marked args.volume_label
      ∷ [];
}

-- The lines of a daemon that runs on: on an empty password the warning on it, and the line about the
-- root, the address and the label.
abbrev pub first_lines : Text → ServerArgs → Bytes → List Printed
first_lines shown_root args [] =
    record {
      level = warning;
      label = codes "server";
      message =
          literal (codes "using an empty password; transport encryption is easy to guess") ∷ [];
    }
    ∷ root_line shown_root args
    ∷ []
first_lines shown_root args (c ∷ password) = root_line shown_root args ∷ []

-- And a warning for each connection that failed, with the text of its error.
abbrev pub failures : List Outcome → List Printed
failures [] = []
failures (warned e ∷ os) =
    record {
      level = warning;
      label = codes "server";
      message = literal (codes "connection failed: " ++ e.message) ∷ [];
    }
    ∷ failures os
failures (_ ∷ os) = failures os

module _ (C : Crypto) (W : Wire) (F : Fs) where
  module _ (requests : Codec Request) (responses : Codec (RpcResult Response)) where
    unfoldable pub main :
        Option Text
        → Option Text
        → Text
        → ServerArgs
        → Result IoError (Unit {0})
        → List (Accepted W.State)
        → F.State
        → Option ℕ × List Printed × F.State
    unfolding connection_lines
    main home profile shown_root args bound arrivals s =
        let (serving_state, outcomes, t) =
          run C W F requests responses home profile args.root args.volume_label args.password bound
            arrivals s in
        (
          exit_code serving_state,
          (warn_if_empty_password args.password ++ serving shown_root args ∷ [])
              ++ (connection_lines outcomes ++ last_line serving_state),
          t,
        )

    -- The process runs on, has gone through all connections, and has printed the warning on the
    -- password, the line about the root and a warning for each connection that failed, in order.
    abbrev pub RunsOn :
        ServerArgs
        → Text
        → RpcServer
        → List (W.State × Bytes)
        → F.State
        → Option ℕ × List Printed × F.State
        → Type 0
    RunsOn args shown_root server xs s (code, printed, t) =
        (os : List Outcome) × (length os ≡ length xs)
        × (code ≡ none)
        × (printed ≡ first_lines shown_root args args.password ++ failures os)
        × (serve C W F server requests responses (streams C W F server requests responses xs) s
            ≡ (waiting, os, t))
