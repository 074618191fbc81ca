-- ===== src/Client/Operations/Contexts.antt =====
-- What crates/netfilum-client/src/mount.rs keeps of an open file over a rename and a deletion, with
-- the server of crates/netfilum-server/src/server.rs behind them.
use netfilum.Prelude.{ℕ, ◌≡◌, ◌⊎◌, refl, arith, inl, inr, Bool, true, false}
use netfilum.Prelude.Texts.{Text}
use netfilum.Prelude.Results.{Result, ok, err, Result-cases}
use netfilum.Protocol.{EntryKind, file, directory, Request}
use netfilum.Server.Fs.{Fs}
use netfilum.Server.Fs.View.{View, IsFileSystem}
use netfilum.Server.Resolve.{RpcServer}
use netfilum.Server.Files as Files
use netfilum.Server.Files.Renames.{HasMoved, rename-moves}
use netfilum.Server.Dispatch.{dispatch}
use netfilum.Server.Dispatch.Queries.{dispatch-query_keeps}
use netfilum.Client.Path.{nt_path_to_relative}
use netfilum.Client.Context.{Environment, RpcFileContext, call}
use netfilum.Client.Served.{served}
use netfilum.Client.Operations.{Opened, rename, set_delete, cleanup, should_delete}

module _ (E : Environment) where
  abbrev pub renamed_context :
      Text → RpcFileContext E → Result E.FspError (Unit {0}) → RpcFileContext E
  renamed_context path c (ok u) = record c { path = path }
  renamed_context path c (err e) = c

  -- An open file has its new path after a rename that succeeds, and the old one after a rename that
  -- fails; nothing else of its context changes, and neither does the state of the mount.
  pub rename-context :
      (new_file_name : Text) (replace : Bool) (o : Opened E)
      → let (r, o') = rename E new_file_name replace o in
        (o'.context ≡ renamed_context (nt_path_to_relative new_file_name) o.context r)
        × (o'.mounted.mount_state ≡ o.mounted.mount_state)
  unfolding rename call
  rename-context new_file_name replace o = ground arith

kind-cases : (k : EntryKind) → (k ≡ file) ⊎ (k ≡ directory)
kind-cases file = inl refl
kind-cases directory = inr refl

module _ (E : Environment) (F : Fs) (server : RpcServer) where
  -- A file that was marked for deletion is deleted when it is cleaned up, whatever the flags: the disk
  -- is what the request to remove a file leaves, where the open file is a file, and the one to remove
  -- a directory, where it is a directory. The question before, whether it can be deleted, does not
  -- touch the disk.
  pub cleanup-set_delete :
      (flags : ℕ) (o : Opened (served E F server))
      → (set_delete (served E F server) true o).0 ≡ ok tt
      → (cleanup (served E F server) flags (set_delete (served E F server) true o).1).mounted.world
        ≡ (dispatch F server
            (elim o.context.kind [
              | file ↦ Request.remove_file o.context.path
              | directory ↦ Request.remove_dir o.context.path
            ])
            o.mounted.world).1
  unfolding set_delete cleanup should_delete call
  cleanup-set_delete flags o h =
      let keeps =
        dispatch-query_keeps F server o.mounted.world
          (Request.can_delete o.context.path o.context.kind) refl in
      elim (kind-cases o.context.kind) [
        | inl e ↦ ground (arith, keeps)
        | inr e ↦ ground (arith, keeps)
      ]

module _ (E : Environment) (F : Fs) (V : View F) (L : IsFileSystem F V) (server : RpcServer) where
  -- A rename of an open file that must not replace and that succeeds has moved the file on the disk of
  -- the server, and the open file's path is the new one: nothing was at the new path, nothing is at
  -- the old one, the new path stands for the file of the old one, unless the old path was itself a
  -- symbolic link, and every file keeps its bytes.
  pub rename-HasMoved :
      (new_file_name : Text) (o : Opened (served E F server))
      → (rename (served E F server) new_file_name false o).0 ≡ ok tt
      → HasMoved F V L server o.context.path (nt_path_to_relative new_file_name) o.mounted.world
        × ((rename (served E F server) new_file_name false o).1.context.path
            ≡ nt_path_to_relative new_file_name)
  unfolding rename call dispatch
  rename-HasMoved new_file_name o h =
      elim (Result-cases
        (Files.rename F server o.context.path (nt_path_to_relative new_file_name) false
          o.mounted.world).0) [
            | inr (e, r) ↦ absurd (ground arith)
            | inl (u, r) ↦ (
              rename-moves F V L server o.context.path (nt_path_to_relative new_file_name)
                  o.mounted.world r,
              ground arith,
            )
          ]
