-- ===== src/Server/Tests.antt =====
-- Requests to a server over a disk in memory, and the theorems at these inputs.
use netfilum.Prelude.{◌≡◌, refl, true, [], ◌∷◌, map}
use netfilum.Prelude.Texts.{codes}
use netfilum.Prelude.Results.{ok, err, map_ok}
use netfilum.Protocol.{Request, file}
use netfilum.Paths.{root_dir, normal, join, path_starts_with, parent}
use netfilum.Server.Path.{normalize_relative_path}
use netfilum.Server.Path.Spec.{relative_names}
use netfilum.Server.Path.Laws.{normalize_relative_path-eq-relative_names}
use netfilum.Server.Fs.Memory.{find, slot_at}
use netfilum.Server.Fs.Memory.Model.{memory}
use netfilum.Server.Sample.{below, disk, server}
use netfilum.Server.Resolve.{resolve_existing, resolve_for_new_path}
use netfilum.Server.Dispatch.{dispatch}
use netfilum.Server.Dispatch.Guards.{escape_error, dispatch-escape, dispatch-create_escape}
use netfilum.Server.Dispatch.Queries.{dispatch-query_keeps}

normalize_relative_path-eq-relative_names_example :
    normalize_relative_path (codes "folder\\./b")
    ≡ map_ok (map normal) (relative_names (codes "folder\\./b"))
normalize_relative_path-eq-relative_names_example =
    normalize_relative_path-eq-relative_names (codes "folder\\./b")

normalized :
    normalize_relative_path (codes "folder\\./b")
    ≡ ok (normal (codes "folder") ∷ normal (codes "b") ∷ [])
unfolding normalize_relative_path
normalized = refl

resolved_b : (resolve_existing memory server (codes "b") disk).0 ≡ ok (below (codes "b"))
unfolding resolve_existing normalize_relative_path join path_starts_with find slot_at
resolved_b = refl

new_c : (resolve_for_new_path memory server (codes "c") disk).0 ≡ ok (below (codes "c"))
unfolding resolve_for_new_path normalize_relative_path join path_starts_with find slot_at parent
new_c = refl

new_b : (resolve_for_new_path memory server (codes "b") disk).0 ≡ ok (below (codes "b"))
unfolding resolve_for_new_path normalize_relative_path join path_starts_with find slot_at parent
new_b = refl

dispatch-escape_example :
    dispatch memory server (Request.read_dir (codes "out")) disk ≡ (err escape_error, disk)
unfolding relative_names join find slot_at path_starts_with
dispatch-escape_example =
    dispatch-escape memory server disk (Request.read_dir (codes "out")) (codes "out")
      (codes "out" ∷ []) (root_dir ∷ normal (codes "etc") ∷ []) refl refl refl refl

dispatch-create_escape_example :
    (dispatch memory server (Request.create (codes "out/x") file 0 0) disk
      ≡ (err escape_error, disk))
    × (dispatch memory server (Request.rename (codes "b") (codes "out/x") true) disk
        ≡ (err escape_error, disk))
unfolding relative_names join find slot_at path_starts_with parent
dispatch-create_escape_example =
    dispatch-create_escape memory server disk (codes "b") (codes "out/x") file 0 0 true
      (below (codes "b")) (codes "out" ∷ codes "x" ∷ []) (root_dir ∷ normal (codes "etc") ∷ []) refl
      refl refl resolved_b

dispatch-query_keeps_example :
    (dispatch memory server (Request.can_delete (codes "b") file) disk).1 ≡ disk
dispatch-query_keeps_example =
    dispatch-query_keeps memory server disk (Request.can_delete (codes "b") file) refl
