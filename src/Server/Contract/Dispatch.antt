-- ===== src/Server/Contract/Dispatch.antt =====
-- `RpcServer::dispatch` of crates/netfilum-server/src/server.rs implements its contract.
use netfilum.Prelude.{
  ℕ, ◌≡◌, refl, ap, sym, ◌∙◌, subst, arith, inl, inr, Bool, length, if◌then◌else◌,
}
use netfilum.Prelude.Texts.{Text, Bytes}
use netfilum.Prelude.Results.{ok, Result-cases, Run, pure, ◌>>=◌}
use netfilum.Protocol.{Request, Response, RpcError}
use netfilum.Server.Fs.{Fs}
use netfilum.Server.Fs.View.{View, IsFileSystem, Same, Written}
use netfilum.Server.Resolve.{RpcServer}
use netfilum.Server.Attributes.{attr_for_path, filesystem_capacity}
use netfilum.Server.Files as Files
use netfilum.Server.Files.Contents.{read_file-content, write_file-content}
use netfilum.Server.Files.Listing.{read_dir-IsListing, read_dir-keeps}
use netfilum.Server.Dispatch.{dispatch}
use netfilum.Server.Contract.{Fulfils, HasPayload, HasWrite, HasRemoved, HasVolume}
use netfilum.Server.Contract.Steps.{attr_for_path-eq_ok}
use netfilum.Server.Contract.Laws.{
  stat_path-HasStat, can_delete-IsDeletable, create_entry-HasCreated, removed, set_len-HasLen,
  flush-Same, rename-HasRenamed,
}
use netfilum.Server.Contract.BasicInfo.{set_basic_info-HasBasicInfo}

-- An operation whose result is put into a response.
wrapped :
    {S A : Type 0} (op : Run S RpcError A) (wrap : A → Response) (P : Response → S → Type 0)
    (s t : S) (r : Response)
    → ((a : A) (u : S) → op s ≡ (ok a, u) → P (wrap a) u)
    → (op >>= λ a. pure (wrap a)) s ≡ (ok r, t)
    → P r t
wrapped op wrap P s t r law h = elim (Result-cases (op s).0) [
  | inr (x, e) ↦ absurd (ground arith)
  | inl (a, e) ↦
      let answer : wrap a ≡ r = ground arith in subst (λ r. P r t) answer (law a t (ground arith))
]

module _ (F : Fs) (V : View F) (L : IsFileSystem F V) (server : RpcServer) where
  read_file-HasPayload :
      (path : Text) (offset len : ℕ) (s t : F.State) (bytes : Bytes)
      → Files.read_file F server path offset len s ≡ (ok bytes, t)
      → HasPayload F V server path offset len s (Response.payload bytes) t
  read_file-HasPayload path offset len s t bytes h =
      let (p, i, found, number, held, short, same) =
        read_file-content F V L server path offset len s bytes (ap (λ x. x.0) h) in
      (
        p,
        i,
        bytes,
        found,
        refl,
        number,
        held,
        short,
        subst (λ u. Same F V s u) (ap (λ x. x.1) h) same,
      )

  write_file-HasWrite :
      (path : Text) (offset : ℕ) (d : Bytes) (to_eof : Bool) (s t : F.State) (r : Response)
      → Files.write_file F server path offset d to_eof s ≡ (ok r, t)
      → HasWrite F V server path offset d to_eof s r t
  write_file-HasWrite path offset d to_eof s t r h =
      let (p, i, a, found, number, answer, queried, w) =
        write_file-content F V L server path offset d to_eof s r (ap (λ x. x.0) h) in
      let left : (Files.write_file F server path offset d to_eof s).1 ≡ t = ap (λ x. x.1) h in
      let u = (Files.write_file F server path offset d to_eof s).1 in
      let (m, stat, eq, same) =
        attr_for_path-eq_ok F server p u (attr_for_path F p u).1 a (ground arith) in
      (
        p,
        i,
        a,
        found,
        answer,
        (m, rw left at stat, eq),
        number,
        subst (λ u. Written F V s u i (if to_eof then length (V.content i s) else offset) d) left w,
      )

  get_volume_info-HasVolume :
      (s t : F.State) (r : Response)
      → dispatch F server Request.get_volume_info s ≡ (ok r, t)
      → HasVolume F V server s r t
  unfolding dispatch
  get_volume_info-HasVolume s t r h =
      elim (Result-cases (filesystem_capacity F server.root_real s)) [
        | inr (x, e) ↦ absurd (ground arith)
        | inl (c, e) ↦ (c.0, c.1, ground arith, ground arith, ground arith)
      ]

  remove_file-HasRemoved :
      (path : Text) (s t : F.State)
      → Files.remove_file F server path s ≡ (ok tt, t)
      → HasRemoved F V server path s Response.empty t
  unfolding Files.remove_file
  remove_file-HasRemoved path s t h =
      removed F V L server path F.remove_file s t (λ p k. L.remove_file p s k) h

  remove_dir-HasRemoved :
      (path : Text) (s t : F.State)
      → Files.remove_dir F server path s ≡ (ok tt, t)
      → HasRemoved F V server path s Response.empty t
  unfolding Files.remove_dir
  remove_dir-HasRemoved path s t h =
      removed F V L server path F.remove_dir s t (λ p k. L.remove_dir p s k) h

  -- Whatever the request, where the server answers it with a response, the response and the disk after
  -- it are as the contract of the request says.
  pub dispatch-Fulfils :
      (q : Request) (s t : F.State) (r : Response)
      → dispatch F server q s ≡ (ok r, t)
      → Fulfils F V server q s r t
  unfolding dispatch
  dispatch-Fulfils (Request.stat path) s t r h =
      wrapped (Files.stat_path F server path) Response.attr
        (Fulfils F V server (Request.stat path) s) s t r
        (λ a u k. stat_path-HasStat F V server path s u a k) h
  dispatch-Fulfils (Request.open_path path) s t r h =
      wrapped (Files.stat_path F server path) Response.attr
        (Fulfils F V server (Request.open_path path) s) s t r
        (λ a u k. stat_path-HasStat F V server path s u a k) h
  dispatch-Fulfils (Request.create path kind attributes allocation) s t r h =
      wrapped (Files.create_entry F server path kind allocation) Response.attr
        (Fulfils F V server (Request.create path kind attributes allocation) s) s t r
        (λ a u k. create_entry-HasCreated F V L server path kind allocation s u a k) h
  dispatch-Fulfils (Request.read_dir path) s t r h =
      wrapped (Files.read_dir F server path) Response.dir_entries
        (Fulfils F V server (Request.read_dir path) s) s t r
        (λ a u k. (
          a,
          refl,
          read_dir-IsListing F server path s a (ap (λ x. x.0) k),
          sym (ap (λ x. x.1) k) ∙ read_dir-keeps F server path s,
        ))
        h
  dispatch-Fulfils (Request.read path offset len) s t r h =
      wrapped (Files.read_file F server path offset len) Response.payload
        (Fulfils F V server (Request.read path offset len) s) s t r
        (λ a u k. read_file-HasPayload path offset len s u a k) h
  dispatch-Fulfils (Request.can_delete path kind) s t r h =
      wrapped (Files.can_delete F server path kind) (λ a. Response.empty)
        (Fulfils F V server (Request.can_delete path kind) s) s t r
        (λ a u k. can_delete-IsDeletable F V server path kind s u k) h
  dispatch-Fulfils (Request.remove_file path) s t r h =
      wrapped (Files.remove_file F server path) (λ a. Response.empty)
        (Fulfils F V server (Request.remove_file path) s) s t r
        (λ a u k. remove_file-HasRemoved path s u k) h
  dispatch-Fulfils (Request.remove_dir path) s t r h =
      wrapped (Files.remove_dir F server path) (λ a. Response.empty)
        (Fulfils F V server (Request.remove_dir path) s) s t r
        (λ a u k. remove_dir-HasRemoved path s u k) h
  dispatch-Fulfils (Request.rename path new_path replace) s t r h =
      wrapped (Files.rename F server path new_path replace) (λ a. Response.empty)
        (Fulfils F V server (Request.rename path new_path replace) s) s t r
        (λ a u k. rename-HasRenamed F V L server path new_path replace s u k) h
  dispatch-Fulfils (Request.set_len path size allocation) s t r h =
      wrapped (Files.set_len F server path size allocation) Response.attr
        (Fulfils F V server (Request.set_len path size allocation) s) s t r
        (λ a u k. set_len-HasLen F V L server path size allocation s u a k) h
  dispatch-Fulfils (Request.flush path) s t r h =
      wrapped (Files.flush F server path) (λ a. Response.empty)
        (Fulfils F V server (Request.flush path) s) s t r
        (λ a u k. (refl, flush-Same F V L server path s u k)) h
  dispatch-Fulfils (Request.set_basic_info path update) s t r h =
      wrapped (Files.set_basic_info F server path update) Response.attr
        (Fulfils F V server (Request.set_basic_info path update) s) s t r
        (λ a u k. set_basic_info-HasBasicInfo F V L server path update s u a k) h
  dispatch-Fulfils (Request.write path offset d to_eof) s t r h =
      write_file-HasWrite path offset d to_eof s t r h
  dispatch-Fulfils Request.get_volume_info s t r h = get_volume_info-HasVolume s t r h
