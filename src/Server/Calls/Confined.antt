-- ===== src/Server/Calls/Confined.antt =====
-- What a request may call, and the parts of the requests of crates/netfilum-server/src/server.rs that
-- work on a path which is resolved already.
use netfilum.Prelude.{ℕ, Bool, true, false, not, ◌&&◌, Option, none, some, List, [], ◌∷◌}
use netfilum.Prelude.Texts.{Text, Bytes}
use netfilum.Prelude.Results.{ok, err, Run, gets, pure, raise}
use netfilum.Protocol.{EntryKind, file, directory, RpcError}
use netfilum.Protocol.Errors.{IoResult, rpc_error_from}
use netfilum.Paths.{PathBuf, normal, join}
use netfilum.Server.Fs.{Fs, SeekFrom, is_dir_result, is_file_result}
use netfilum.Server.Times.{file_time_to_filetime}
use netfilum.Server.Attributes.{
  or_now, readonly_mode, attr_for_path, set_readonly, current_access_time, current_modified_time,
}
use netfilum.Server.Resolve.{RpcServer, parent_or_root}
use netfilum.Server.Resolve.Laws.{IsConfined}
use netfilum.Server.Files as Files
use netfilum.Server.Files.{
  create_at, list_entries, read_at, write_at, can_delete_at, clear_target, set_len_at, sync_at,
  update_readonly,
}
use netfilum.Server.Calls.{Call, opens, creates, removes, changes, renames, Noted, logged}
use netfilum.Server.Calls.Follows.{
  AlwaysFollows, >>=-Follows, noting-then, unnoted-then, ask-then, pure-Follows, query-Follows,
  noted-Follows, with_err-Follows, raise-Follows, if-Follows, probe-then, noting-Follows,
  unnoted-Follows,
}

module _ (F : Fs) (server : RpcServer) (origin : F.State) where
  -- What stands at the path, symbolic links followed, was in the exported directory when the request
  -- came.
  abbrev pub IsExisting : PathBuf → Type 0
  IsExisting p = IsConfined F server origin p p

  -- The directory above the path was.
  abbrev pub IsNew : PathBuf → Type 0
  IsNew p = IsConfined F server origin (parent_or_root server p) p

  -- What a request may remove: the target of a rename may be new, all else must be there.
  abbrev pub IsRemovable : (renaming : Bool) → PathBuf → Type 0
  IsRemovable true p = IsNew p
  IsRemovable false p = IsExisting p

module _ (F : Fs) (server : RpcServer) (renaming : Bool) (origin : F.State) where
  abbrev Existing : PathBuf → Type 0
  Existing = IsExisting F server origin

  abbrev New : PathBuf → Type 0
  New = IsNew F server origin

  -- What a request may call, be it a rename or not.
  abbrev pub IsPermitted : Call → Type 0
  IsPermitted (opens p) = IsExisting F server origin p
  IsPermitted (creates p) = IsNew F server origin p
  IsPermitted (removes p) = IsRemovable F server origin renaming p
  IsPermitted (changes p) = IsExisting F server origin p
  IsPermitted (renames p q) = IsExisting F server origin p × IsNew F server origin q

  abbrev pub Permits : {E A : Type 0} → Run F.State E A → Run (Noted F) E A → Type 0
  Permits m m' = AlwaysFollows F IsPermitted m m'

  pub attr_for_path-Follows :
      (p : PathBuf) → Permits (attr_for_path F p) (attr_for_path (logged F) p)
  unfolding attr_for_path
  attr_for_path-Follows p =
      ask-then F IsPermitted (F.metadata p) _ _ (λ m. pure-Follows F IsPermitted _)

  pub create_at-Follows :
      (p : PathBuf) (kind : EntryKind)
      → New p
      → Permits (create_at F server p kind) (create_at (logged F) server p kind)
  unfolding create_at
  create_at-Follows p file new =
      noting-then F IsPermitted (creates p) (F.open_file Files.write_new p) _ _ new
        (λ f. unnoted-Follows F IsPermitted (F.flush f))
  create_at-Follows p directory new = noting-Follows F IsPermitted (creates p) (F.create_dir p) new

  pub read_at-Follows :
      (p : PathBuf) (offset len : ℕ)
      → Existing p
      → Permits (read_at F server p offset len) (read_at (logged F) server p offset len)
  unfolding read_at
  read_at-Follows p offset len here =
      noting-then F IsPermitted (opens p) (F.open_file Files.read_only p) _ _ here (λ f.
        unnoted-then F IsPermitted (F.seek (SeekFrom.start offset) f) _ _
          (λ g. unnoted-Follows F IsPermitted (F.read len g)))

  pub write_at-Follows :
      (p : PathBuf) (position : SeekFrom) (payload : Bytes)
      → Existing p
      → Permits
          (write_at F server p position payload)
          (write_at (logged F) server p position payload)
  unfolding write_at
  write_at-Follows p position payload here =
      noting-then F IsPermitted (opens p) (F.open_file Files.read_write p) _ _ here (λ f.
        unnoted-then F IsPermitted (F.seek position f) _ _ (λ g.
          unnoted-then F IsPermitted (F.write_all payload g) _ _
            (λ w. unnoted-Follows F IsPermitted (F.flush w))))

  pub set_len_at-Follows :
      (p : PathBuf) (size : ℕ)
      → Existing p
      → Permits (set_len_at F server p size) (set_len_at (logged F) server p size)
  unfolding set_len_at
  set_len_at-Follows p size here =
      noting-then F IsPermitted (opens p) (F.open_file Files.write_only p) _ _ here
        (λ f. unnoted-Follows F IsPermitted (F.set_len size f))

  pub sync_at-Follows :
      (p : PathBuf) → Existing p → Permits (sync_at F server p) (sync_at (logged F) server p)
  unfolding sync_at
  sync_at-Follows p here =
      noting-then F IsPermitted (opens p) (F.open_file Files.read_write p) _ _ here
        (λ f. unnoted-Follows F IsPermitted (F.sync_all f))

  pub list_entries-Follows :
      (p : PathBuf) (entries : List (IoResult Text))
      → Permits (list_entries F server p entries) (list_entries (logged F) server p entries)
  unfolding list_entries
  list_entries-Follows p [] s l = pure-Follows F IsPermitted [] s l
  list_entries-Follows p (ok name ∷ entries) s l =
      >>=-Follows F IsPermitted (attr_for_path F (join p (normal name ∷ [])))
        (attr_for_path (logged F) (join p (normal name ∷ []))) _ _ s l
        (attr_for_path-Follows (join p (normal name ∷ [])) s l)
        (λ a t k.
          >>=-Follows F IsPermitted (list_entries F server p entries)
            (list_entries (logged F) server p entries) _ _ t k (list_entries-Follows p entries t k)
            (λ es. pure-Follows F IsPermitted _))
  list_entries-Follows p (err e ∷ entries) s l = raise-Follows F IsPermitted (rpc_error_from e) s l

  pub empty-Follows :
      (e : RpcError) (children : List (IoResult Text))
      → Permits
          (elim children as (λ x. Run F.State RpcError Unit) [ [] ↦ pure tt | _ ↦ raise e ])
          (elim children as (λ x. Run (Noted F) RpcError Unit) [ [] ↦ pure tt | _ ↦ raise e ])
  empty-Follows e [] = pure-Follows F IsPermitted tt
  empty-Follows e (c ∷ children) = raise-Follows F IsPermitted e

  pub can_delete_at-Follows :
      (p : PathBuf) (kind : EntryKind)
      → Permits (can_delete_at F server p kind) (can_delete_at (logged F) server p kind)
  unfolding can_delete_at
  can_delete_at-Follows p file = ask-then F IsPermitted (F.metadata p) _ _ (λ m.
      if-Follows F IsPermitted m.is_dir _ _ _ _ (raise-Follows F IsPermitted _)
        (pure-Follows F IsPermitted tt))
  can_delete_at-Follows p directory = ask-then F IsPermitted (F.metadata p) _ _ (λ m.
      if-Follows F IsPermitted (not m.is_dir) _ _ _ _ (raise-Follows F IsPermitted _)
        (ask-then F IsPermitted (F.read_dir p) _ _ (empty-Follows _)))

  pub set_readonly-Follows :
      (p : PathBuf) (readonly : Bool)
      → Existing p
      → AlwaysFollows F IsPermitted (set_readonly F p readonly) (set_readonly (logged F) p readonly)
  unfolding set_readonly
  set_readonly-Follows p readonly here s l =
      >>=-Follows F IsPermitted (gets (F.metadata p)) (gets ((logged F).metadata p)) _ _ s l
        (query-Follows F IsPermitted (F.metadata p) s l)
        (λ m.
          noted-Follows F IsPermitted (changes p)
            (F.set_permissions p (readonly_mode m.mode readonly)) here)

  pub update_readonly-Follows :
      (p : PathBuf) (readonly : Option Bool)
      → Existing p
      → Permits (update_readonly F server p readonly) (update_readonly (logged F) server p readonly)
  unfolding update_readonly
  update_readonly-Follows p none here = pure-Follows F IsPermitted tt
  update_readonly-Follows p (some readonly) here =
      with_err-Follows F IsPermitted rpc_error_from (set_readonly F p readonly)
        (set_readonly (logged F) p readonly) (set_readonly-Follows p readonly here)

  pub or_now-Follows : (time : Option F.FileTime) → Permits (or_now F time) (or_now (logged F) time)
  or_now-Follows (some t) s l = pure-Follows F IsPermitted t s l
  or_now-Follows none s l = query-Follows F IsPermitted (λ s. ok (F.from_system_time (F.now s))) s l

  pub current_access_time-Follows :
      (p : PathBuf) → Permits (current_access_time F p) (current_access_time (logged F) p)
  unfolding current_access_time file_time_to_filetime
  current_access_time-Follows p = ask-then F IsPermitted (F.metadata p) _ _ (λ m. or_now-Follows _)

  pub current_modified_time-Follows :
      (p : PathBuf) → Permits (current_modified_time F p) (current_modified_time (logged F) p)
  unfolding current_modified_time file_time_to_filetime
  current_modified_time-Follows p =
      ask-then F IsPermitted (F.metadata p) _ _ (λ m. or_now-Follows _)

module _ (F : Fs) (server : RpcServer) (origin : F.State) where
  -- The target of a rename is cleared.
  pub clear_target-Follows :
      (p : PathBuf) (replace : Bool)
      → IsNew F server origin p
      → Permits F server true origin
          (clear_target F server p replace)
          (clear_target (logged F) server p replace)
  unfolding clear_target
  clear_target-Follows p replace new =
      let P = IsPermitted F server true origin in
      probe-then F P (λ s. is_dir_result (F.metadata p s)) _ _
        (λ is_dir.
          probe-then F P (λ s. is_file_result (F.metadata p s)) _ _
            (λ is_file.
              if-Follows F P (replace && is_dir) _ _ _ _
                (noting-Follows F P (removes p) (F.remove_dir_all p) new)
                (if-Follows F P (replace && is_file) _ _ _ _
                  (noting-Follows F P (removes p) (F.remove_file p) new) (pure-Follows F P tt))))
