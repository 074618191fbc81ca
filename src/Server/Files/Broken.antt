-- ===== src/Server/Files/Broken.antt =====
-- `RpcServer::read_dir` of crates/netfilum-server/src/server.rs where an entry has no attributes, such as
-- a symbolic link whose target is gone.
use netfilum.Prelude.{◌≡◌, arith, true, List, [], ◌∷◌, ◌++◌, map}
use netfilum.Prelude.Texts.{Text}
use netfilum.Prelude.Results.{ok, err}
use netfilum.Protocol.{DirEntry, RpcError, Request}
use netfilum.Protocol.Errors.{IoResult}
use netfilum.Paths.{PathBuf, normal, join}
use netfilum.Server.Fs.{Fs, Metadata}
use netfilum.Server.Attributes.{attr_for_path}
use netfilum.Server.Attributes.Laws.{attr_for_path-keeps}
use netfilum.Server.Resolve.{RpcServer, resolve_existing}
use netfilum.Server.Resolve.Laws.{resolve_existing-keeps}
use netfilum.Server.Files.{list_entries, read_dir}
use netfilum.Server.Files.Listing.{Describes}
use netfilum.Server.Dispatch.{dispatch}

-- A directory whose entry `name` is the first without attributes.
pub record IsBroken (F : Fs) (server : RpcServer) (relative : Text) (s : F.State) (e : RpcError)
    : Type 0 where
  pub path : PathBuf
  pub metadata : Metadata
  pub before : List Text
  pub listed : List DirEntry
  pub name : Text
  pub after : List (IoResult Text)
  pub resolved : (resolve_existing F server relative s).0 ≡ ok path
  pub stat : F.metadata path s ≡ ok metadata
  pub directory : metadata.is_dir ≡ true
  pub entries : F.read_dir path s ≡ ok (map ok before ++ ok name ∷ after)
  pub described : Describes F path s before listed
  pub broken : (attr_for_path F (join path (normal name ∷ [])) s).0 ≡ err e

module _ (F : Fs) (server : RpcServer) (s : F.State) where
  list_entries-broken :
      (path : PathBuf) (before : List Text) (listed : List DirEntry) (name : Text)
      (after : List (IoResult Text)) (e : RpcError)
      → Describes F path s before listed
      → (attr_for_path F (join path (normal name ∷ [])) s).0 ≡ err e
      → list_entries F server path (map ok before ++ ok name ∷ after) s ≡ (err e, s)
  unfolding list_entries
  list_entries-broken path [] listed name after e d h =
      ground (arith, attr_for_path-keeps F (join path (normal name ∷ [])) s)
  list_entries-broken path (n ∷ before) [] name after e d h = absurd d
  list_entries-broken path (n ∷ before) (l ∷ listed) name after e (p, q, d) h = ground (
    arith,
    attr_for_path-keeps F (join path (normal n ∷ [])) s,
    list_entries-broken path before listed name after e d h,
  )

  -- A directory in which the attributes of one entry cannot be read is not listed at all: the request is
  -- answered by the error of the first such entry, whatever the other entries are. The disk is as it
  -- was.
  pub dispatch-broken :
      (relative : Text) (e : RpcError)
      → IsBroken F server relative s e
      → dispatch F server (Request.read_dir relative) s ≡ (err e, s)
  unfolding dispatch read_dir
  dispatch-broken relative e b = ground (
    arith,
    resolve_existing-keeps F server relative s,
    b.resolved,
    b.stat,
    b.directory,
    b.entries,
    list_entries-broken b.path b.before b.listed b.name b.after e b.described b.broken,
  )
