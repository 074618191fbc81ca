-- ===== src/Server/Calls/Requests.antt =====
-- Every request of crates/netfilum-server/src/server.rs, whatever becomes of it, calls the operating
-- system only with paths that were resolved below the root.
use netfilum.Prelude.{ℕ, Bool, not, ◌&&◌, ◌||◌, Option, none, some, true, false, [], if◌then◌else◌}
use netfilum.Prelude.Texts.{Text, Bytes, codes}
use netfilum.Prelude.Results.{Run, pure, ◌>>=◌}
use netfilum.Protocol.{EntryKind, ErrorCode, RpcError, BasicInfoUpdate}
use netfilum.Paths.{PathBuf}
use netfilum.Server.Fs.{Fs, succeeds, is_dir_result}
use netfilum.Server.Times.{file_time_to_filetime}
use netfilum.Server.Attributes.{io, attr_for_path, current_access_time, current_modified_time}
use netfilum.Server.Resolve.{RpcServer}
use netfilum.Server.Files as Files
use netfilum.Server.Files.{
  create_at, list_entries, write_at, write_position, clear_target, set_len_at, update_readonly,
  chosen_time, is_some,
}
use netfilum.Server.Calls.{removes, changes, renames, Noted, noting, logged}
use netfilum.Server.Calls.Follows.{
  Follows, >>=-Follows, noting-Follows, ask-then, pure-Follows, raise-Follows, if-Follows,
  probe-then, resolve_existing-Follows, resolve_for_new_path-Follows,
}
use netfilum.Server.Calls.Confined.{
  IsExisting, IsPermitted, Permits, attr_for_path-Follows, create_at-Follows, read_at-Follows,
  write_at-Follows, set_len_at-Follows, sync_at-Follows, list_entries-Follows,
  can_delete_at-Follows, clear_target-Follows, update_readonly-Follows, current_access_time-Follows,
  current_modified_time-Follows,
}

module _ (F : Fs) (server : RpcServer) (renaming : Bool) where
  -- From the state in which the request comes.
  abbrev pub Obeys :
      {A : Type 0} → F.State → Run F.State RpcError A → Run (Noted F) RpcError A → Type 0
  Obeys s m m' = Follows F (IsPermitted F server renaming s) s [] m m'

  -- A run, and what is done with its result.
  next :
      {A B : Type 0} (s : F.State) (m : Run F.State RpcError A) (m' : Run (Noted F) RpcError A)
      → (k : A → Run F.State RpcError B) (k' : A → Run (Noted F) RpcError B) → Obeys s m m'
      → ((a : A) → Permits F server renaming s (k a) (k' a))
      → Obeys s (m >>= k) (m' >>= k')
  next s m m' k k' g h = >>=-Follows F (IsPermitted F server renaming s) m m' k k' s [] g h

  pub stat_path-Obeys :
      (path : Text) (s : F.State)
      → Obeys s (Files.stat_path F server path) (Files.stat_path (logged F) server path)
  unfolding Files.stat_path
  stat_path-Obeys path s =
      resolve_existing-Follows F server (IsPermitted F server renaming s) path s [] _ _
        (λ p here. attr_for_path-Follows F server renaming s p s [])

  pub create_entry-Obeys :
      (path : Text) (kind : EntryKind) (size : ℕ) (s : F.State)
      → Obeys s
          (Files.create_entry F server path kind size)
          (Files.create_entry (logged F) server path kind size)
  unfolding Files.create_entry
  create_entry-Obeys path kind size s =
      resolve_for_new_path-Follows F server (IsPermitted F server renaming s) path s [] _ _
        (λ p new.
          next s (create_at F server p kind) (create_at (logged F) server p kind) _ _
            (create_at-Follows F server renaming s p kind new s [])
            (λ u. attr_for_path-Follows F server renaming s p))

  pub read_dir-Obeys :
      (path : Text) (s : F.State)
      → Obeys s (Files.read_dir F server path) (Files.read_dir (logged F) server path)
  unfolding Files.read_dir
  read_dir-Obeys path s =
      let P = IsPermitted F server renaming s in
      resolve_existing-Follows F server P path s [] _ _ (λ p here.
        ask-then F P (F.metadata p) _ _
          (λ m. if-Follows F P (not m.is_dir) _ _ _ _ (raise-Follows F P _) (
            ask-then F P (F.read_dir p) _ _ (λ names t l.
              >>=-Follows F P (list_entries F server p names)
                (list_entries (logged F) server p names) _ _ t l
                (list_entries-Follows F server renaming s p names t l) (λ es. pure-Follows F P _))))
          s [])

  pub read_file-Obeys :
      (path : Text) (offset len : ℕ) (s : F.State)
      → Obeys s
          (Files.read_file F server path offset len)
          (Files.read_file (logged F) server path offset len)
  unfolding Files.read_file
  read_file-Obeys path offset len s =
      resolve_existing-Follows F server (IsPermitted F server renaming s) path s [] _ _
        (λ p here. read_at-Follows F server renaming s p offset len here s [])

  pub can_delete-Obeys :
      (path : Text) (kind : EntryKind) (s : F.State)
      → Obeys s (Files.can_delete F server path kind) (Files.can_delete (logged F) server path kind)
  unfolding Files.can_delete
  can_delete-Obeys path kind s =
      resolve_existing-Follows F server (IsPermitted F server renaming s) path s [] _ _
        (λ p here. can_delete_at-Follows F server renaming s p kind s [])

  pub write_file-Obeys :
      (path : Text) (offset : ℕ) (d : Bytes) (to_eof : Bool) (s : F.State)
      → Obeys s
          (Files.write_file F server path offset d to_eof)
          (Files.write_file (logged F) server path offset d to_eof)
  unfolding Files.write_file
  write_file-Obeys path offset d to_eof s =
      let P = IsPermitted F server renaming s in
      resolve_existing-Follows F server P path s [] _ _ (λ p here.
        next s (write_at F server p (write_position F server offset to_eof) d)
          (write_at (logged F) server p (write_position F server offset to_eof) d) _ _
          (write_at-Follows F server renaming s p (write_position F server offset to_eof) d here s
            [])
          (λ u t l.
            >>=-Follows F P (attr_for_path F p) (attr_for_path (logged F) p) _ _ t l
              (attr_for_path-Follows F server renaming s p t l) (λ a. pure-Follows F P _)))

  pub set_len-Obeys :
      (path : Text) (size : ℕ) (allocation : Bool) (s : F.State)
      → Obeys s
          (Files.set_len F server path size allocation)
          (Files.set_len (logged F) server path size allocation)
  unfolding Files.set_len
  set_len-Obeys path size allocation s =
      let P = IsPermitted F server renaming s in
      resolve_existing-Follows F server P path s [] _ _ (λ p here.
        next s (if allocation then pure tt else set_len_at F server p size)
          (if allocation then pure tt else set_len_at (logged F) server p size) _ _
          (if-Follows F P allocation _ _ _ _ (pure-Follows F P tt)
            (set_len_at-Follows F server renaming s p size here) s [])
          (λ u. attr_for_path-Follows F server renaming s p))

  pub flush-Obeys :
      (path : Option Text) (s : F.State)
      → Obeys s (Files.flush F server path) (Files.flush (logged F) server path)
  unfolding Files.flush
  flush-Obeys none s = pure-Follows F (IsPermitted F server renaming s) tt s []
  flush-Obeys (some path) s =
      let P = IsPermitted F server renaming s in
      resolve_existing-Follows F server P path s [] _ _ (λ p here.
        probe-then F P (λ t. is_dir_result (F.metadata p t)) _ _
          (λ is_dir.
            if-Follows F P is_dir _ _ _ _ (pure-Follows F P tt)
              (sync_at-Follows F server renaming s p here))
          s [])

  -- The times are set if the request names one of them, and the attributes are read.
  times_set :
      (p : PathBuf) (update : BasicInfoUpdate) (accessed modified : F.FileTime) (s : F.State)
      → IsExisting F server s p
      → Permits F server renaming s
          ((if is_some update.last_access_time || is_some update.last_write_time
              then io F (
                  F.set_file_times p
                    (chosen_time F update.last_access_time accessed)
                    (chosen_time F update.last_write_time modified))
              else pure tt)
            >>= λ u. attr_for_path F p)
          ((if is_some update.last_access_time || is_some update.last_write_time
              then io (logged F) (
                  (logged F).set_file_times p
                    (chosen_time (logged F) update.last_access_time accessed)
                    (chosen_time (logged F) update.last_write_time modified))
              else pure tt)
            >>= λ u. attr_for_path (logged F) p)
  unfolding file_time_to_filetime
  times_set p update accessed modified s here t l =
      let P = IsPermitted F server renaming s in
      let call =
        F.set_file_times p (chosen_time F update.last_access_time accessed)
          (chosen_time F update.last_write_time modified) in
      >>=-Follows F P _ _ (λ u. attr_for_path F p) (λ u. attr_for_path (logged F) p) t l
        (if-Follows F P (is_some update.last_access_time || is_some update.last_write_time)
          (io F call) (pure tt) (io (logged F) (noting F (changes p) call)) (pure tt)
          (noting-Follows F P (changes p) call here) (pure-Follows F P tt) t l)
        (λ u. attr_for_path-Follows F server renaming s p)

  pub set_basic_info-Obeys :
      (path : Text) (update : BasicInfoUpdate) (s : F.State)
      → Obeys s
          (Files.set_basic_info F server path update)
          (Files.set_basic_info (logged F) server path update)
  unfolding Files.set_basic_info file_time_to_filetime
  set_basic_info-Obeys path update s =
      let P = IsPermitted F server renaming s in
      resolve_existing-Follows F server P path s [] _ _ (λ p here.
        next s (update_readonly F server p update.readonly)
          (update_readonly (logged F) server p update.readonly) _ _
          (update_readonly-Follows F server renaming s p update.readonly here s [])
          (λ u t l.
            >>=-Follows F P (current_access_time F p) (current_access_time (logged F) p) _ _ t l
              (current_access_time-Follows F server renaming s p t l)
              (λ accessed t l.
                >>=-Follows F P (current_modified_time F p) (current_modified_time (logged F) p) _ _
                  t l (current_modified_time-Follows F server renaming s p t l)
                  (λ modified. times_set p update accessed modified s here))))

module _ (F : Fs) (server : RpcServer) where
  pub remove_file-Obeys :
      (path : Text) (s : F.State)
      → Obeys F server false s
          (Files.remove_file F server path)
          (Files.remove_file (logged F) server path)
  unfolding Files.remove_file
  remove_file-Obeys path s =
      let P = IsPermitted F server false s in
      resolve_existing-Follows F server P path s [] _ _
        (λ p here. noting-Follows F P (removes p) (F.remove_file p) here s [])

  pub remove_dir-Obeys :
      (path : Text) (s : F.State)
      → Obeys F server false s
          (Files.remove_dir F server path)
          (Files.remove_dir (logged F) server path)
  unfolding Files.remove_dir
  remove_dir-Obeys path s =
      let P = IsPermitted F server false s in
      resolve_existing-Follows F server P path s [] _ _
        (λ p here. noting-Follows F P (removes p) (F.remove_dir p) here s [])

  abbrev taken : RpcError
  taken = Files.rpc_error ErrorCode.already_exists (codes "target already exists")

  pub rename-Obeys :
      (from to : Text) (replace : Bool) (s : F.State)
      → Obeys F server true s
          (Files.rename F server from to replace)
          (Files.rename (logged F) server from to replace)
  unfolding Files.rename
  rename-Obeys from to replace s =
      let P = IsPermitted F server true s in
      resolve_existing-Follows F server P from s [] _ _ (λ p here.
        resolve_for_new_path-Follows F server P to s [] _ _ (λ q new.
          probe-then F P (λ t. succeeds (F.metadata q t)) _ _
            (λ exists.
              if-Follows F P (not replace && exists) _ _ _ _ (raise-Follows F P taken) (λ t l.
                >>=-Follows F P (clear_target F server q replace)
                  (clear_target (logged F) server q replace) _ _ t l
                  (clear_target-Follows F server s q replace new t l)
                  (λ u. noting-Follows F P (renames p q) (F.rename p q) (here, new))))
            s []))
