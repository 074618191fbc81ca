-- ===== src/Server/ContentTests.antt =====
-- Listings, contents and renames on a disk in memory, and the theorems at these inputs.
use netfilum.Prelude.{◌≡◌, refl, true, false, List, [], ◌∷◌, map, take}
use netfilum.Prelude.Texts.{codes}
use netfilum.Prelude.Results.{Result, ok, err}
use netfilum.Protocol.{RpcError, ErrorCode, Request, Response, DirEntry}
use netfilum.Server.Fs.{Fs}
use netfilum.Server.Dispatch.{dispatch}
use netfilum.Server.Resolve.{RpcServer}
use netfilum.Paths.{PathBuf, root_dir, join, path_starts_with, parent}
use netfilum.Server.Path.{normalize_relative_path}
use netfilum.Server.Fs.Memory.{
  Disk, metadata_of, new_slot, find, slot_at, content, unlink, relabel, open_file, seek, write_all,
}
use netfilum.Server.Fs.Memory.{update, remove, move, children}
use netfilum.Server.Fs.Memory.Model.{memory, memory_view}
use netfilum.Server.Fs.Memory.Laws.{memory-IsFileSystem}
use netfilum.Server.Sample.{srv, below, disk, server}
use netfilum.Server.Attributes.{attr_for_path}
use netfilum.Server.Resolve.{resolve_existing, resolve_for_new_path}
use netfilum.Server.Files.{
  read_dir, read_file, write_file, rename, read_at, write_at, list_entries, sort_by_name,
}
use netfilum.Server.Files.Broken.{IsBroken, dispatch-broken}
use netfilum.Server.Files.Renames.{HasLost, rename-self_deletes, Accepted, rename-inside_deletes}

abbrev value_or {ℓ} : {A : Type ℓ} → A → Result RpcError A → A
value_or d (ok a) = a
value_or d (err e) = d

abbrev listing : List DirEntry
listing = value_or [] (read_dir memory server [] disk).0

listed : (read_dir memory server [] disk).0 ≡ ok listing
unfolding read_dir list_entries sort_by_name resolve_existing normalize_relative_path join
    path_starts_with find slot_at children attr_for_path
listed = refl

listing_names : map (λ d. d.name) listing ≡ codes "a" ∷ codes "b" ∷ codes "out" ∷ []
unfolding read_dir list_entries sort_by_name resolve_existing normalize_relative_path join
    path_starts_with find slot_at children attr_for_path
listing_names = refl

-- The disk with a link in its directory whose target is gone.
abbrev dangling : Fs
dangling = record memory {
  read_dir = λ p s. ok (ok (codes "a") ∷ ok (codes "gone") ∷ ok (codes "b") ∷ []);
}

abbrev gone : RpcError
gone = record { code = ErrorCode.not_found; message = codes "os error" }

broken : IsBroken dangling server [] disk gone
unfolding read_dir list_entries sort_by_name resolve_existing normalize_relative_path join
    path_starts_with find slot_at children attr_for_path
broken = record {
  path = srv;
  metadata = metadata_of (new_slot srv true);
  before = codes "a" ∷ [];
  listed = take 1 listing;
  name = codes "gone";
  after = ok (codes "b") ∷ [];
  resolved = refl;
  stat = refl;
  directory = refl;
  entries = refl;
  described = (refl, refl, tt);
  broken = refl;
}

dispatch-broken_example : dispatch dangling server (Request.read_dir []) disk ≡ (err gone, disk)
dispatch-broken_example = dispatch-broken dangling server disk [] gone broken

read_b : (read_file memory server (codes "b") 1 3 disk).0 ≡ ok (codes "ell")
unfolding read_file read_at resolve_existing normalize_relative_path join path_starts_with find
    slot_at open_file seek content
read_b = refl

abbrev response : Response
response =
    value_or Response.empty (write_file memory server (codes "b") 5 (codes "!!") false disk).0

wrote_b : (write_file memory server (codes "b") 5 (codes "!!") false disk).0 ≡ ok response
unfolding write_file write_at resolve_existing normalize_relative_path join path_starts_with find
    slot_at open_file seek write_all content update attr_for_path
wrote_b = refl

resolved : (resolve_existing memory server (codes "b") disk).0 ≡ ok (below (codes "b"))
unfolding resolve_existing normalize_relative_path join path_starts_with find slot_at
resolved = refl

resolved_a : (resolve_for_new_path memory server (codes "a") disk).0 ≡ ok (below (codes "a"))
unfolding resolve_for_new_path normalize_relative_path join path_starts_with find slot_at parent
resolved_a = refl

resolved_new : (resolve_for_new_path memory server (codes "b") disk).0 ≡ ok (below (codes "b"))
unfolding resolve_for_new_path normalize_relative_path join path_starts_with find slot_at parent
resolved_new = refl

renamed : (rename memory server (codes "b") (codes "c") false disk).0 ≡ ok tt
unfolding rename resolve_existing resolve_for_new_path normalize_relative_path join path_starts_with
    find slot_at parent move relabel unlink
renamed = refl

rename-self_deletes_example :
    HasLost memory memory_view memory-IsFileSystem server
      (codes "b")
      (codes "b")
      disk
      (below (codes "b"))
unfolding find slot_at remove
rename-self_deletes_example =
    rename-self_deletes memory memory_view memory-IsFileSystem server (codes "b") (codes "b") disk
      (below (codes "b"))
      (metadata_of (record (new_slot (below (codes "b")) false) { bytes = codes "hello" }))
      (resolved, resolved_new) refl refl refl refl

-- A server of the whole disk: `/srv/b` is renamed to `/srv`, the directory that it is in.
abbrev top : PathBuf
top = root_dir ∷ []

abbrev whole_disk : Disk
whole_disk = new_slot top true ∷ disk

abbrev whole : RpcServer
whole = record server { root = top; root_real = top }

accepted : Accepted memory whole (codes "srv/b") (codes "srv") whole_disk (below (codes "b")) srv
unfolding resolve_existing resolve_for_new_path normalize_relative_path join path_starts_with find
    slot_at parent
accepted = (refl, refl)

rename-inside_deletes_example :
    HasLost memory memory_view memory-IsFileSystem whole
      (codes "srv/b")
      (codes "srv")
      whole_disk
      (below (codes "b"))
unfolding find slot_at remove path_starts_with
rename-inside_deletes_example =
    rename-inside_deletes memory memory_view memory-IsFileSystem whole (codes "srv/b") (codes "srv")
      whole_disk (below (codes "b")) srv (metadata_of (new_slot srv true)) accepted refl refl refl
      refl
