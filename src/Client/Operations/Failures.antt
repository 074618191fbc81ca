-- ===== src/Client/Operations/Failures.antt =====
-- The error that an operation of crates/netfilum-client/src/mount.rs returns, and what it comes from.
use netfilum.Prelude.{◌≡◌, refl, arith, inl, inr, Option, none, some}
use netfilum.Prelude.Results.{Result, ok, err}
use netfilum.Server.Fs.{Fs}
use netfilum.Server.Resolve.{RpcServer}
use netfilum.Client.Context.{Environment, RpcFsContext}
use netfilum.Client.Served.{served}
use netfilum.Client.Operations as Operations
use netfilum.Client.Operations.{Opened, created_kind}
use netfilum.Client.Operations.Performed.{Operation}
use netfilum.Client.Operations.Replies.{replying}
use netfilum.Client.Operations.Requests.{Asked}
use netfilum.Client.Operations.Reported.{Reported}
use netfilum.Client.Operations.Reported.Listings.{read_directory-Opens}
use netfilum.Client.Operations.Reported.Runs.{
  get_security-Reports, open_path-Reports, create-Reports, get_volume_info-Reports,
  flush_volume-Reports, get_file_info-Opens, flush_file-Opens, rename-reports, set_delete-reports,
  set_basic_info-Opens, set_file_size-Opens, read-Opens, write-Opens,
}

abbrev pub error_of : {X A : Type 0} → Result X A → Option X
error_of (ok a) = none
error_of (err e) = some e

-- The error of an operation; `cleanup` returns none.
abbrev pub failure : (E : Environment) → RpcFsContext E → Operation → Opened E → Option E.FspError
failure E fs op o = error_of (replying E fs op o).0

module _ (E : Environment) (F : Fs) (server : RpcServer)
    (fs : RpcFsContext (served E F server)) where
  abbrev S : Environment
  S = served E F server

  -- For an error that an operation of the mounted file system returns there is a request that this
  -- operation makes, about the name it is given or the path of the open file, and a disk on which the
  -- server answers this request with an error: the operation's is that one, as the `io::Error` of the
  -- kind that stands for its code. Only in a listing winfsp itself may refuse a name or an entry, and
  -- only an operation that makes no request denies access.
  pub failure-Reported :
      (op : Operation) (o : Opened S) (e : E.FspError)
      → failure S fs op o ≡ some e
      → Reported E F server (Asked o.context.path o.context.kind op) e
  failure-Reported (Operation.get_security_by_name name target reparse) o e h =
      get_security-Reports E F server _ fs name target reparse refl o.mounted e (ground arith)
  failure-Reported (Operation.open_path name) o e h =
      open_path-Reports E F server _ fs name refl o.mounted e (ground arith)
  failure-Reported (Operation.create name options attributes size) o e h =
      create-Reports E F server _ fs name options attributes size refl o.mounted e (ground arith)
  failure-Reported Operation.get_volume_info o e h =
      get_volume_info-Reports E F server _ fs refl o.mounted e (ground arith)
  failure-Reported (Operation.cleanup flags) o e h = absurd (ground arith)
  failure-Reported Operation.flush_file o e h =
      (flush_file-Opens E F server _ o.context.path (inl refl) (inr refl)).reports o refl e
        (ground arith)
  failure-Reported Operation.flush_volume o e h =
      flush_volume-Reports E F server _ refl o.mounted e (ground arith)
  failure-Reported Operation.get_file_info o e h =
      (get_file_info-Opens E F server _ o.context.path refl).reports o refl e (ground arith)
  failure-Reported Operation.set_security o e h =
      unfold Operations.set_security in Reported.denied (λ r x. x) (ground arith)
  failure-Reported (Operation.get_security target) o e h =
      unfold Operations.get_security in absurd (ground arith)
  failure-Reported (Operation.read_directory marker) o e h =
      (read_directory-Opens E F server _ o.context.path marker (inl refl) (inr refl)).reports o refl
        e (ground arith)
  failure-Reported (Operation.rename name replace) o e h =
      rename-reports E F server _ o.context.path name replace refl o refl e (ground arith)
  failure-Reported (Operation.set_basic_info attributes created accessed written changed) o e h =
      (set_basic_info-Opens E F server _ o.context.path attributes created accessed written changed
          refl).reports
        o refl e (ground arith)
  failure-Reported (Operation.set_delete delete) o e h =
      set_delete-reports E F server _ o.context.path delete o refl refl e (ground arith)
  failure-Reported (Operation.set_file_size size allocation) o e h =
      (set_file_size-Opens E F server _ o.context.path size allocation refl).reports o refl e
        (ground arith)
  failure-Reported (Operation.read buffer offset) o e h =
      (read-Opens E F server _ o.context.path buffer offset refl).reports o refl e (ground arith)
  failure-Reported (Operation.write buffer offset to_eof constrained) o e h =
      (write-Opens E F server _ o.context.path buffer offset to_eof constrained (inl refl)
          (λ d rest h. inr (d, rest, h, refl))).reports
        o refl e (ground arith)
