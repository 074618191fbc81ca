-- ===== src/Server/Calls/Dispatch.antt =====
-- The calls of crates/netfilum-server/src/server.rs under `dispatch`.
use netfilum.Prelude.{◌≡◌, ap, sym, ◌∙◌, [], All, Bool, true, false}
use netfilum.Prelude.Results.{Run, pure, ◌>>=◌}
use netfilum.Protocol.{RpcError, Request, Response}
use netfilum.Server.Fs.{Fs}
use netfilum.Server.Attributes.{filesystem_capacity}
use netfilum.Server.Resolve.{RpcServer}
use netfilum.Server.Files as Files
use netfilum.Server.Files.{
  create_at, list_entries, write_at, write_position, clear_target, set_len_at, update_readonly,
  chosen_time, is_some,
}
use netfilum.Server.Dispatch.{dispatch}
use netfilum.Server.Calls.{Noted, logged}
use netfilum.Server.Calls.Follows.{>>=-Follows, ask-then, pure-Follows}
use netfilum.Server.Calls.Confined.{IsPermitted}
use netfilum.Server.Calls.Requests.{
  Obeys, stat_path-Obeys, create_entry-Obeys, read_dir-Obeys, read_file-Obeys, write_file-Obeys,
  can_delete-Obeys, remove_file-Obeys, remove_dir-Obeys, rename-Obeys, set_len-Obeys, flush-Obeys,
  set_basic_info-Obeys,
}

abbrev pub is_rename : Request → Bool
is_rename (Request.rename from to replace) = true
is_rename _ = false

module _ (F : Fs) (server : RpcServer) where
  answer :
      {A : Type 0} (b : Bool) (s : F.State) (m : Run F.State RpcError A)
      → (m' : Run (Noted F) RpcError A) (f : A → Response) → Obeys F server b s m m'
      → Obeys F server b s (m >>= λ a. pure (f a)) (m' >>= λ a. pure (f a))
  answer b s m m' f g =
      >>=-Follows F (IsPermitted F server b s) m m' (λ a. pure (f a)) (λ a. pure (f a)) s [] g
        (λ a. pure-Follows F (IsPermitted F server b s) (f a))

  dispatch-Obeys :
      (q : Request) (s : F.State)
      → Obeys F server (is_rename q) s (dispatch F server q) (dispatch (logged F) server q)
  unfolding dispatch filesystem_capacity
  dispatch-Obeys (Request.stat path) s =
      answer false s (Files.stat_path F server path) (Files.stat_path (logged F) server path)
        Response.attr (stat_path-Obeys F server false path s)
  dispatch-Obeys (Request.open_path path) s =
      answer false s (Files.stat_path F server path) (Files.stat_path (logged F) server path)
        Response.attr (stat_path-Obeys F server false path s)
  dispatch-Obeys (Request.create path kind attributes size) s =
      answer false s (Files.create_entry F server path kind size)
        (Files.create_entry (logged F) server path kind size) Response.attr
        (create_entry-Obeys F server false path kind size s)
  dispatch-Obeys (Request.read_dir path) s =
      answer false s (Files.read_dir F server path) (Files.read_dir (logged F) server path)
        Response.dir_entries (read_dir-Obeys F server false path s)
  dispatch-Obeys (Request.read path offset len) s =
      answer false s (Files.read_file F server path offset len)
        (Files.read_file (logged F) server path offset len) Response.payload
        (read_file-Obeys F server false path offset len s)
  dispatch-Obeys (Request.write path offset d to_eof) s =
      write_file-Obeys F server false path offset d to_eof s
  dispatch-Obeys (Request.can_delete path kind) s =
      answer false s (Files.can_delete F server path kind)
        (Files.can_delete (logged F) server path kind) (λ u. Response.empty)
        (can_delete-Obeys F server false path kind s)
  dispatch-Obeys (Request.remove_file path) s =
      answer false s (Files.remove_file F server path) (Files.remove_file (logged F) server path)
        (λ u. Response.empty) (remove_file-Obeys F server path s)
  dispatch-Obeys (Request.remove_dir path) s =
      answer false s (Files.remove_dir F server path) (Files.remove_dir (logged F) server path)
        (λ u. Response.empty) (remove_dir-Obeys F server path s)
  dispatch-Obeys (Request.rename from to replace) s =
      answer true s (Files.rename F server from to replace)
        (Files.rename (logged F) server from to replace) (λ u. Response.empty)
        (rename-Obeys F server from to replace s)
  dispatch-Obeys (Request.set_len path size allocation) s =
      answer false s (Files.set_len F server path size allocation)
        (Files.set_len (logged F) server path size allocation) Response.attr
        (set_len-Obeys F server false path size allocation s)
  dispatch-Obeys (Request.flush path) s =
      answer false s (Files.flush F server path) (Files.flush (logged F) server path)
        (λ u. Response.empty) (flush-Obeys F server false path s)
  dispatch-Obeys (Request.set_basic_info path update) s =
      answer false s (Files.set_basic_info F server path update)
        (Files.set_basic_info (logged F) server path update) Response.attr
        (set_basic_info-Obeys F server false path update s)
  dispatch-Obeys Request.get_volume_info s =
      ask-then F (IsPermitted F server false s) (filesystem_capacity F server.root_real) _ _
        (λ c. pure-Follows F (IsPermitted F server false s) _) s []

  -- A request on the operating system that keeps the list does what it does on the other one, and the
  -- list holds nothing but permitted calls.
  abbrev pub HasPermitted : Request → F.State → Type 0
  HasPermitted q s =
      let (r, (t, calls)) = dispatch (logged F) server q (s, []) in
      (dispatch F server q s ≡ (r, t)) × All (IsPermitted F server (is_rename q) s) calls

  -- Whatever the request, whatever its paths, and whether it succeeds or fails, before or after it has
  -- changed something: every call that opens a file, or that creates, removes, renames or changes a
  -- file or a directory, is made with a path that is the root joined with plain names, and that the
  -- disk, as it was when the request came, resolves to a place under the real root. For a path that is
  -- to be created, for a rename's target, and for what a rename removes at its target, this holds of
  -- the directory above the path. The calls are those of the operating system that keeps a list of
  -- them, which changes neither the response nor the disk; those that ask for metadata, real paths or
  -- the names in a directory are not in that list.
  pub dispatch-HasPermitted : (q : Request) (s : F.State) → HasPermitted q s
  dispatch-HasPermitted q s =
      let f = dispatch-Obeys q s in
      (
        ap (λ r. (r, (dispatch F server q s).1)) (sym f.same)
            ∙ ap (λ t. ((dispatch (logged F) server q (s, [])).0, t)) (sym f.left),
        f.permitted tt,
      )
