-- ===== src/Client/OperationTests.antt =====
-- Open files on a disk in memory behind the server, and the theorems at these inputs.
use netfilum.Prelude.{◌≡◌, refl, arith, true, false, none, some, []}
use netfilum.Prelude.Texts.{codes}
use netfilum.Prelude.Results.{Result, ok, err}
use netfilum.Protocol.{file, FileAttr, Request}
use netfilum.Protocol.Errors.{IoError}
use netfilum.Paths.{join, path_starts_with, parent}
use netfilum.Server.Path.{normalize_relative_path}
use netfilum.Server.Fs.Memory.{
  find, slot_at, content, unlink, relabel, open_file, seek, write_all, update, move,
}
use netfilum.Server.Fs.Memory.Model.{memory, memory_view}
use netfilum.Server.Fs.Memory.Laws.{memory-IsFileSystem}
use netfilum.Server.Sample.{disk, server}
use netfilum.Server.Attributes.{attr_for_path}
use netfilum.Server.Resolve.{resolve_existing, resolve_for_new_path}
use netfilum.Server.Files as Files
use netfilum.Server.Files.{read_file, read_at, write_file, write_at, stat_path}
use netfilum.Server.Files.Renames.{HasMoved}
use netfilum.Server.Dispatch.{dispatch}
use netfilum.Client.Path.{nt_path_to_relative}
use netfilum.Client.Context.{new_file_context, call, send_request, fetch_attr}
use netfilum.Client.Sample.{winfsp, mounted, opened}
use netfilum.Client.Operations.{
  Opened, read, copy_read, write, write_payload, rename, set_delete, cleanup, on_path,
}
use netfilum.Client.Operations.Constrained.{IsConstrained, write-IsConstrained}
use netfilum.Client.Operations.Contexts.{rename-HasMoved, cleanup-set_delete}
use netfilum.Client.Operations.Disconnects.{Grows}
use netfilum.Client.Operations.Performed.{Operation, perform, perform-Grows}
use netfilum.Client.Operations.Reads.{HasFetched, read-HasFetched}
use netfilum.Client.Operations.RoundTrip.{HasEcho, read-write}

fetched : (read mounted (codes "......") 1 opened).0 ≡ ok (some (codes "ello..", 4))
unfolding read call copy_read dispatch read_file read_at resolve_existing normalize_relative_path
    join path_starts_with find slot_at open_file seek content
fetched = refl

read-HasFetched_example :
    HasFetched winfsp memory memory_view memory-IsFileSystem server
      (codes "......")
      1
      opened
      (some (codes "ello..", 4))
read-HasFetched_example =
    read-HasFetched winfsp memory memory_view memory-IsFileSystem server (codes "......") 1 opened
      (some (codes "ello..", 4)) fetched

abbrev or_nothing {ℓ} : {A : Type ℓ} → A → Result IoError A → A
or_nothing d (ok a) = a
or_nothing d (err e) = d

wrote :
    (write mounted (codes "!!") 5 false false opened).0
    ≡ ok (or_nothing (0, none) (write mounted (codes "!!") 5 false false opened).0)
unfolding write call write_payload dispatch write_file write_at resolve_existing
    normalize_relative_path join path_starts_with find slot_at open_file seek write_all content
    update attr_for_path
wrote = refl

read_back :
    (read mounted (codes "..") 5 (write mounted (codes "!!") 5 false false opened).1).0
    ≡ ok (some (codes "!!", 2))
unfolding read copy_read write call write_payload dispatch read_file read_at write_file write_at
    resolve_existing normalize_relative_path join path_starts_with find slot_at open_file seek
    write_all content update attr_for_path
read_back = refl

read-write_example : HasEcho (codes "!!") (codes "..") (some (codes "!!", 2))
read-write_example =
    read-write winfsp memory memory_view memory-IsFileSystem server (codes "!!") (codes "..") 5
      opened (or_nothing (0, none) (write mounted (codes "!!") 5 false false opened).0)
      (some (codes "!!", 2)) wrote (omega arith) read_back

abbrev attr_b : FileAttr → FileAttr
attr_b d = or_nothing d (on_path mounted (fetch_attr mounted) opened).0

abbrev no_attr : FileAttr
no_attr = record {
  kind = file;
  size = 0;
  allocated_size = 0;
  created = none;
  accessed = none;
  modified = none;
  changed = none;
  readonly = false;
  mode = none;
}

stated : (on_path mounted (fetch_attr mounted) opened).0 ≡ ok (attr_b no_attr)
unfolding fetch_attr send_request dispatch stat_path resolve_existing normalize_relative_path join
    path_starts_with find slot_at attr_for_path
stated = refl

write-IsConstrained_example :
    IsConstrained mounted (attr_b no_attr).size (codes "12345") 3 false opened
write-IsConstrained_example =
    write-IsConstrained mounted (codes "12345") 3 false opened (attr_b no_attr) stated

renamed : (rename mounted (codes "\\c") false opened).0 ≡ ok tt
unfolding rename nt_path_to_relative call dispatch Files.rename resolve_existing
    resolve_for_new_path normalize_relative_path join path_starts_with find slot_at parent move
    relabel unlink
renamed = refl

rename-HasMoved_example :
    HasMoved memory memory_view memory-IsFileSystem server
      (codes "b")
      (nt_path_to_relative (codes "\\c"))
      disk
    × ((rename mounted (codes "\\c") false opened).1.context.path
        ≡ nt_path_to_relative (codes "\\c"))
rename-HasMoved_example =
    rename-HasMoved winfsp memory memory_view memory-IsFileSystem server (codes "\\c") opened
      renamed

deletable : (set_delete mounted true opened).0 ≡ ok tt
unfolding set_delete call dispatch Files.can_delete resolve_existing normalize_relative_path join
    path_starts_with find slot_at
deletable = refl

cleanup-set_delete_example :
    (cleanup mounted 0 (set_delete mounted true opened).1).mounted.world
    ≡ (dispatch memory server (Request.remove_file (codes "b")) disk).1
cleanup-set_delete_example = cleanup-set_delete winfsp memory server 0 opened deletable

-- The server is not there.
abbrev alone : Opened winfsp
alone = record {
  mounted = record {
    world = tt;
    mount_state = record { stop = true; disconnect_message = some (codes "lost") };
  };
  context = new_file_context winfsp (codes "b") file;
}

perform-Grows_example :
    Grows alone.mounted.mount_state
      (perform winfsp
        (record { security_descriptor = []; volume_label = codes "netfilum" })
        Operation.get_file_info
        alone).mounted.mount_state
perform-Grows_example =
    perform-Grows winfsp (record { security_descriptor = []; volume_label = codes "netfilum" })
      Operation.get_file_info alone
