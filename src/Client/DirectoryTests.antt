-- ===== src/Client/DirectoryTests.antt =====
-- A listing of a disk in memory behind the server, and the theorem at this input.
use netfilum.Prelude.{◌≡◌, refl, none, []}
use netfilum.Prelude.Texts.{codes}
use netfilum.Prelude.Results.{ok}
use netfilum.Protocol.{directory}
use netfilum.Paths.{join, path_starts_with}
use netfilum.Server.Path.{normalize_relative_path}
use netfilum.Server.Fs.Memory.{find, slot_at, children}
use netfilum.Server.Fs.Memory.Model.{memory}
use netfilum.Server.Sample.{disk, server}
use netfilum.Server.Attributes.{attr_for_path}
use netfilum.Server.Resolve.{resolve_existing}
use netfilum.Server.Files.{stat_path, read_dir, list_entries, sort_by_name}
use netfilum.Server.Dispatch.{dispatch}
use netfilum.Client.MountState.{initial}
use netfilum.Client.Context.{new_file_context, send_request, fetch_attr, fetch_dir_entries}
use netfilum.Client.Sample.{winfsp, mounted}
use netfilum.Client.Operations.{
  Opened, read_directory, write_entries, write_dir_entry, write_special_dir_entry,
}
use netfilum.Client.Operations.Directories.{HasRead, read_directory-HasRead}

-- The root of the mount, which holds `a`, `b` and `out`.
abbrev root : Opened mounted
root = record {
  mounted = record { world = disk; mount_state = initial };
  context = new_file_context mounted [] directory;
}

listed : (read_directory mounted none root).0 ≡ ok (codes "...about")
unfolding read_directory fetch_attr fetch_dir_entries send_request dispatch stat_path read_dir
    list_entries sort_by_name resolve_existing normalize_relative_path join path_starts_with find
    slot_at children attr_for_path write_entries write_dir_entry write_special_dir_entry
listed = refl

read_directory-HasRead_example :
    HasRead winfsp memory server root
      (codes "...about")
      (read_directory mounted none root).1.context.dir_buffer
read_directory-HasRead_example =
    read_directory-HasRead winfsp memory server root (codes "...about") listed
