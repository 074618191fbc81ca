-- ===== src/Server/Dispatch/Queries.antt =====
-- Requests that `RpcServer::dispatch` of crates/netfilum-server/src/server.rs answers without a
-- change of the disk.
use netfilum.Prelude.{ℕ, ◌≡◌, refl, arith, Bool, true, false, none, some, inl, inr}
use netfilum.Prelude.Results.{Result-cases}
use netfilum.Prelude.Texts.{Text}
use netfilum.Protocol.{EntryKind, file, directory, Request}
use netfilum.Server.Fs.{Fs}
use netfilum.Server.Attributes.Laws.{attr_for_path-keeps}
use netfilum.Server.Resolve.{RpcServer, resolve_existing}
use netfilum.Server.Resolve.Laws.{resolve_existing-keeps}
use netfilum.Server.Files
use netfilum.Server.Files.Listing.{read_dir-keeps}
use netfilum.Server.Dispatch.{dispatch}

-- The requests for attributes, for a listing, for the volume, the test before a deletion, a flush of
-- the whole volume, and the setting of an allocation size.
abbrev pub is_query : Request → Bool
is_query (Request.stat path) = true
is_query (Request.open_path path) = true
is_query (Request.create path kind attributes allocation) = false
is_query (Request.read_dir path) = true
is_query (Request.read path offset len) = false
is_query (Request.write path offset payload to_eof) = false
is_query (Request.can_delete path kind) = true
is_query (Request.remove_file path) = false
is_query (Request.remove_dir path) = false
is_query (Request.rename path new_path replace) = false
is_query (Request.set_len path size allocation) = allocation
is_query (Request.flush (some path)) = false
is_query (Request.flush none) = true
is_query (Request.set_basic_info path update) = false
is_query Request.get_volume_info = true

module _ (F : Fs) (server : RpcServer) (s : F.State) where
  stat_path-keeps : (path : Text) → (Files.stat_path F server path s).1 ≡ s
  unfolding Files.stat_path
  stat_path-keeps path = elim (Result-cases (resolve_existing F server path s).0) [
    | inr (x, e) ↦ ground (arith, resolve_existing-keeps F server path s)
    | inl (p, e) ↦ ground (arith, resolve_existing-keeps F server path s, attr_for_path-keeps F p s)
  ]

  can_delete-keeps :
      (path : Text) (kind : EntryKind) → (Files.can_delete F server path kind s).1 ≡ s
  unfolding Files.can_delete
  can_delete-keeps path file = ground (arith, resolve_existing-keeps F server path s)
  can_delete-keeps path directory = ground (arith, resolve_existing-keeps F server path s)

  set_len-keeps : (path : Text) (size : ℕ) → (Files.set_len F server path size true s).1 ≡ s
  unfolding Files.set_len
  set_len-keeps path size = elim (Result-cases (resolve_existing F server path s).0) [
    | inr (x, e) ↦ ground (arith, resolve_existing-keeps F server path s)
    | inl (p, e) ↦ ground (arith, resolve_existing-keeps F server path s, attr_for_path-keeps F p s)
  ]

  -- Those requests leave the disk as it was, whether they succeed or fail.
  pub dispatch-query_keeps : (r : Request) → is_query r ≡ true → (dispatch F server r s).1 ≡ s
  unfolding dispatch
  dispatch-query_keeps (Request.stat path) h = ground (arith, stat_path-keeps path)
  dispatch-query_keeps (Request.open_path path) h = ground (arith, stat_path-keeps path)
  dispatch-query_keeps (Request.read_dir path) h = ground (arith, read_dir-keeps F server path s)
  dispatch-query_keeps (Request.can_delete path kind) h = ground (arith, can_delete-keeps path kind)
  dispatch-query_keeps (Request.set_len path size true) h = ground (arith, set_len-keeps path size)
  dispatch-query_keeps (Request.flush none) h = unfold Files.flush in refl
  dispatch-query_keeps Request.get_volume_info h = ground arith
  dispatch-query_keeps _ h = absurd (ground arith)
