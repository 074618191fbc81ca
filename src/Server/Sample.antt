-- ===== src/Server/Sample.antt =====
-- A server over a disk in memory, for the tests.
use netfilum.Prelude.{true, false, [], ◌∷◌}
use netfilum.Prelude.Texts.{Text, codes}
use netfilum.Paths.{root_dir, normal, PathBuf}
use netfilum.Server.Fs.Memory.{Disk, new_slot}
use netfilum.Server.Resolve.{RpcServer}

abbrev pub srv : PathBuf
srv = root_dir ∷ normal (codes "srv") ∷ []

abbrev pub below : Text → PathBuf
below name = root_dir ∷ normal (codes "srv") ∷ normal name ∷ []

-- `/srv` holds the file `b`, the file `a`, and `out`, a link to `/etc`.
abbrev pub disk : Disk
disk =
    new_slot srv true
    ∷ record (new_slot (below (codes "b")) false) { bytes = codes "hello" }
    ∷ new_slot (below (codes "a")) false
    ∷ record (new_slot (below (codes "out")) true) { real = root_dir ∷ normal (codes "etc") ∷ [] }
    ∷ []

abbrev pub server : RpcServer
server = record { root = srv; root_real = srv; volume_label = codes "netfilum"; cipher = [] }
