-- ===== src/Server/ContractTests.antt =====
-- The contract of the requests and the run of the daemon on a disk in memory, and the theorems at these
-- inputs.
use netfilum.Prelude.{◌≡◌, refl, true, List, [], ◌∷◌}
use netfilum.Prelude.Texts.{Bytes, codes}
use netfilum.Prelude.Results.{ok}
use netfilum.Protocol.{Request, Response}
use netfilum.Paths.{join, path_starts_with, parent}
use netfilum.Rpc.Buffer.{Buffer}
use netfilum.Server.Path.{normalize_relative_path}
use netfilum.Server.Fs.Memory.{Disk, find, slot_at, unlink, relabel, remove, move}
use netfilum.Server.Fs.Memory.Model.{memory, memory_view}
use netfilum.Server.Fs.Memory.Laws.{memory-IsFileSystem}
use netfilum.Server.Sample.{below, disk, server}
use netfilum.Server.Resolve.{resolve_existing, resolve_for_new_path}
use netfilum.Server.Files.{rename}
use netfilum.Server.Dispatch.{dispatch}
use netfilum.Server.Main.{ServerArgs}
use netfilum.Server.Calls.{logged, removes, renames}
use netfilum.Server.Calls.Dispatch.{HasPermitted, dispatch-HasPermitted}
use netfilum.Server.Contract.{Fulfils}
use netfilum.Server.Contract.Dispatch.{dispatch-Fulfils}

abbrev renaming : Request
renaming = Request.rename (codes "a") (codes "b") true

abbrev renamed : Disk
renamed = (dispatch memory server renaming disk).1

renamed_lem : dispatch memory server renaming disk ≡ (ok Response.empty, renamed)
unfolding dispatch rename resolve_existing resolve_for_new_path normalize_relative_path join
    path_starts_with parent find slot_at remove unlink move relabel
renamed_lem = refl

dispatch-Fulfils_example : Fulfils memory memory_view server renaming disk Response.empty renamed
dispatch-Fulfils_example =
    dispatch-Fulfils memory memory_view memory-IsFileSystem server renaming disk renamed
      Response.empty renamed_lem

dispatch-HasPermitted_example : HasPermitted memory server renaming disk
dispatch-HasPermitted_example = dispatch-HasPermitted memory server renaming disk

-- The target is removed, and then the source is renamed.
calls_lem :
    (dispatch (logged memory) server renaming (disk, [])).1.1
    ≡ renames (below (codes "a")) (below (codes "b")) ∷ removes (below (codes "b")) ∷ []
unfolding dispatch rename resolve_existing resolve_for_new_path normalize_relative_path join
    path_starts_with parent find slot_at remove unlink move relabel
calls_lem = refl

abbrev args : ServerArgs
args = record {
  root = codes "/srv";
  addr = codes "127.0.0.1:4040";
  volume_label = codes "netfilum";
  password = [];
}

-- A monitor, a stream that is cut off before its tag, and one that is cut off behind it.
abbrev arrived : List (Buffer × Bytes)
arrived =
    (record { input = 1 ∷ []; output = [] }, [])
    ∷ (record { input = []; output = [] }, [])
    ∷ (record { input = 0 ∷ []; output = [] }, [])
    ∷ []
