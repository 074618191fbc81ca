-- ===== src/Server/Contract/Laws.antt =====
-- The server of crates/netfilum-server/src/server.rs keeps its contract.
use netfilum.Prelude.{
  ℕ, ◌≡◌, refl, ap, sym, ◌∙◌, subst, arith, ◌⊎◌, not, ◌&&◌, inl, inr, Bool, Bool-cases, true, false,
  Option, none, some, Option-cases,
}
use netfilum.Prelude.Texts.{Text}
use netfilum.Prelude.Results.{Result, ok, Result-cases, ◌>>=◌}
use netfilum.Protocol.{EntryKind, FileAttr, Response}
use netfilum.Protocol.Errors.{IoError}
use netfilum.Paths.{PathBuf}
use netfilum.Server.Fs.{Fs, succeeds, is_dir_result}
use netfilum.Server.Fs.View.{View, IsFileSystem, Same, Removed}
use netfilum.Server.Resolve.{RpcServer, resolve_existing, resolve_for_new_path}
use netfilum.Server.Resolve.Laws.{resolve_existing-keeps, resolve_for_new_path-keeps}
use netfilum.Server.Attributes.{io}
use netfilum.Server.Files as Files
use netfilum.Server.Contract.{
  HasStat, HasCreated, IsDeletable, HasRemoved, IsSpecial, HasRenamed, HasLen,
}
use netfilum.Server.Contract.Steps.{
  attr_for_path-eq_ok, can_delete_at-eq_ok, create_at-Created, create_at-kind, set_len_at-Resized,
  sync_at-Same, clear_target-cases, clear_target-link, clear_target-keeps,
}

module _ (F : Fs) (V : View F) (server : RpcServer) where
  pub stat_path-HasStat :
      (path : Text) (s t : F.State) (a : FileAttr)
      → Files.stat_path F server path s ≡ (ok a, t)
      → HasStat F V server path s (Response.attr a) t
  unfolding Files.stat_path
  stat_path-HasStat path s t a h = elim (Result-cases (resolve_existing F server path s).0) [
    | inr (x, e) ↦ absurd (ground arith)
    | inl (p, e) ↦
        let (m, found, eq, left) =
          attr_for_path-eq_ok F server p s t a
            (ground (arith, resolve_existing-keeps F server path s)) in
        (p, a, e, refl, (m, rw left found, eq), left)
  ]

  pub can_delete-IsDeletable :
      (path : Text) (kind : EntryKind) (s t : F.State)
      → Files.can_delete F server path kind s ≡ (ok tt, t)
      → IsDeletable F V server path kind s Response.empty t
  unfolding Files.can_delete
  can_delete-IsDeletable path kind s t h =
      elim (Result-cases (resolve_existing F server path s).0) [
        | inr (x, e) ↦ absurd (ground arith)
        | inl (p, e) ↦
            let (m, found, is, empty, left) =
              can_delete_at-eq_ok F server p kind s t
                (ground (arith, resolve_existing-keeps F server path s)) in
            (p, m, e, refl, found, is, empty, left)
      ]

module _ (F : Fs) (V : View F) (L : IsFileSystem F V) (server : RpcServer) where
  pub create_entry-HasCreated :
      (path : Text) (kind : EntryKind) (allocation : ℕ) (s t : F.State) (a : FileAttr)
      → Files.create_entry F server path kind allocation s ≡ (ok a, t)
      → HasCreated F V server path kind s (Response.attr a) t
  unfolding Files.create_entry
  create_entry-HasCreated path kind allocation s t a h =
      let keeps = resolve_for_new_path-keeps F server path s in
      elim (Result-cases (resolve_for_new_path F server path s).0) [
        | inr (x, e) ↦ absurd (ground arith)
        | inl (p, e) ↦
            let made = Files.create_at F server p kind s in
            elim (Result-cases made.0) [
              | inr (x, k) ↦ absurd (ground (arith, keeps))
              | inl (u, k) ↦
                  let (i, created) =
                    create_at-Created F V L server p kind s made.1 (ground arith) in
                  let (m, found, eq, left) =
                    attr_for_path-eq_ok F server p made.1 t a (ground (arith, keeps)) in
                  let is = create_at-kind F V L server p kind s made.1 m (ground arith) found in
                  (
                    p,
                    i,
                    a,
                    e,
                    refl,
                    (m, rw left found, eq),
                    ap (λ a. a.kind) eq ∙ is,
                    rw left created,
                  )
            ]
      ]

  pub removed :
      (path : Text) (op : PathBuf → F.State → Result IoError (Unit {0}) × F.State) (s t : F.State)
      → ((p : PathBuf) → (op p s).0 ≡ ok tt → Removed F V s (op p s).1 p)
      → (do p ← resolve_existing F server path; io F (op p)) s ≡ (ok tt, t)
      → HasRemoved F V server path s Response.empty t
  removed path op s t law h = elim (Result-cases (resolve_existing F server path s).0) [
    | inr (x, e) ↦ absurd (ground arith)
    | inl (p, e) ↦
        let keeps = resolve_existing-keeps F server path s in
        let left : (op p s).1 ≡ t = ground (arith, keeps) in
        (p, e, refl, subst (λ u. Removed F V s u p) left (law p (ground (arith, keeps))))
  ]

  pub set_len-HasLen :
      (path : Text) (size : ℕ) (allocation : Bool) (s t : F.State) (a : FileAttr)
      → Files.set_len F server path size allocation s ≡ (ok a, t)
      → HasLen F V server path size allocation s (Response.attr a) t
  unfolding Files.set_len
  set_len-HasLen path size true s t a h = elim (Result-cases (resolve_existing F server path s).0) [
    | inr (x, e) ↦ absurd (ground arith)
    | inl (p, e) ↦
        let (m, found, eq, left) =
          attr_for_path-eq_ok F server p s t a
            (ground (arith, resolve_existing-keeps F server path s)) in
        (p, a, e, refl, (m, rw left found, eq), left)
  ]
  set_len-HasLen path size false s t a h =
      let keeps = resolve_existing-keeps F server path s in
      elim (Result-cases (resolve_existing F server path s).0) [
        | inr (x, e) ↦ absurd (ground arith)
        | inl (p, e) ↦
            let cut = Files.set_len_at F server p size s in
            elim (Result-cases cut.0) [
              | inr (x, k) ↦ absurd (ground (arith, keeps))
              | inl (u, k) ↦
                  let (i, number, resized) =
                    set_len_at-Resized F V L server p size s cut.1 (ground arith) in
                  let (m, found, eq, left) =
                    attr_for_path-eq_ok F server p cut.1 t a (ground (arith, keeps)) in
                  (p, i, a, e, refl, (m, rw left found, eq), number, rw left resized)
            ]
      ]

  pub flush-Same :
      (path : Option Text) (s t : F.State) → Files.flush F server path s ≡ (ok tt, t) → Same F V s t
  unfolding Files.flush
  flush-Same none s t h = let left : s ≡ t = ground arith in rw (← left) (λ p. refl, λ i. refl)
  flush-Same (some path) s t h =
      let keeps = resolve_existing-keeps F server path s in
      elim (Result-cases (resolve_existing F server path s).0) [
        | inr (x, e) ↦ absurd (ground arith)
        | inl (p, e) ↦ elim (Bool-cases (is_dir_result (F.metadata p s))) [
          | inl d ↦ let left : s ≡ t = ground (arith, keeps) in rw (← left) (λ p. refl, λ i. refl)
          | inr d ↦ sync_at-Same F V L server p s t (ground (arith, keeps))
        ]
      ]

  pub missing : (q : PathBuf) (s : F.State) → succeeds (F.metadata q s) ≡ false → V.inode q s ≡ none
  missing q s h = elim (Result-cases (F.metadata q s)) [
    | inl (m, e) ↦ absurd (ground arith)
    | inr (x, e) ↦ L.metadata_missing q s x e
  ]

  -- The last step of `RpcServer::rename`.
  moved :
      (p q : PathBuf) (replace : Bool) (s u t : F.State)
      → Files.clear_target F server q replace s ≡ (ok tt, u)
      → F.rename p q u ≡ (ok tt, t)
      → (V.is_link p s ≡ true)
        ⊎ ((i : ℕ) × (V.inode p s ≡ some i)
            × (V.inode q t ≡ some i)
            × (V.content i t ≡ V.content i s))
  moved p q replace s u t c h = elim (Bool-cases (V.is_link p u)) [
    | inl l ↦ inl (clear_target-link F V L server q replace s u c p l)
    | inr l ↦ elim (Option-cases (V.inode p u)) [
      | inl n ↦ let (e, failed) = L.rename_missing p q u l n in absurd (ground arith)
      | inr (i, number) ↦
          let left : (F.rename p q u).1 ≡ t = ground arith in
          let at_q = L.rename p q u l (ground arith) in
          let bytes = L.rename_content p q u (ground arith) i in
          let (number', bytes') = clear_target-keeps F V L server q replace s u c p i number in
          inr (i, number', rw left at at_q ∙ number, rw left at bytes ∙ bytes')
    ]
  ]

  -- What stood at the new path has been removed, or is neither a file nor a directory.
  cleared-cases :
      (q : PathBuf) (replace : Bool) (s u : F.State)
      → (not replace && succeeds (F.metadata q s)) ≡ false
      → Files.clear_target F server q replace s ≡ (ok tt, u)
      → (V.inode q u ≡ none) ⊎ IsSpecial F V server q s
  cleared-cases q replace s u free c = elim (clear_target-cases F V L server q replace s u c) [
    | inr gone ↦ inl gone.0
    | inl (left, d, f) ↦ elim (Result-cases (F.metadata q s)) [
      | inr (x, e) ↦ inl (ap (V.inode q) left ∙ L.metadata_missing q s x e)
      | inl (m, e) ↦ inr (m, e, ground arith, ground arith)
    ]
  ]

  left_behind :
      (p q : PathBuf) (replace : Bool) (s u t : F.State)
      → (not replace && succeeds (F.metadata q s)) ≡ false
      → Files.clear_target F server q replace s ≡ (ok tt, u)
      → F.rename p q u ≡ (ok tt, t)
      → (V.inode p t ≡ none) ⊎ IsSpecial F V server q s
  left_behind p q replace s u t free c h = elim (cleared-cases q replace s u free c) [
    | inr special ↦ inr special
    | inl gone ↦
        let left : (F.rename p q u).1 ≡ t = ground arith in
        inl (ap (V.inode p) (sym left) ∙ L.rename_gone p q u gone (ground arith))
  ]

  pub rename-HasRenamed :
      (from to : Text) (replace : Bool) (s t : F.State)
      → Files.rename F server from to replace s ≡ (ok tt, t)
      → HasRenamed F V server from to replace s Response.empty t
  unfolding Files.rename
  rename-HasRenamed from to replace s t h =
      let keeps = resolve_existing-keeps F server from s in
      let keeps' = resolve_for_new_path-keeps F server to s in
      elim (Result-cases (resolve_existing F server from s).0) [
        | inr (x, e) ↦ absurd (ground arith)
        | inl (p, e) ↦ elim (Result-cases (resolve_for_new_path F server to s).0) [
          | inr (x, k) ↦ absurd (ground (arith, keeps))
          | inl (q, k) ↦
              let cleared = Files.clear_target F server q replace s in
              elim (Result-cases cleared.0) [
                | inr (x, c) ↦ absurd (ground (arith, keeps, keeps'))
                | inl (u, c) ↦
                    let step : F.rename p q cleared.1 ≡ (ok tt, t) =
                      ground (arith, keeps, keeps') in
                    (
                      p,
                      q,
                      e,
                      k,
                      refl,
                      λ never. missing q s (ground (arith, keeps, keeps')),
                      left_behind p q replace s cleared.1 t (ground (arith, keeps, keeps'))
                          (ground arith) step,
                      moved p q replace s cleared.1 t (ground arith) step,
                    )
              ]
        ]
      ]
