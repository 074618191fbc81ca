-- ===== src/Server/Contract/Steps.antt =====
-- What the parts of an operation of crates/netfilum-server/src/server.rs have done where the operation
-- succeeds.
use netfilum.Prelude.{
  ℕ, ◌≡◌, refl, ap, sym, ◌∙◌, subst, arith, ◌⊎◌, inl, inr, Bool, Bool-cases, true, false, some, [],
  ◌&&◌,
}
use netfilum.Prelude.Texts.{Text}
use netfilum.Prelude.Results.{ok, Result-cases}
use netfilum.Protocol.{EntryKind, file, directory, FileAttr}
use netfilum.Paths.{PathBuf, path_starts_with_refl}
use netfilum.Server.Fs.{Fs, Metadata, is_dir_result, is_file_result}
use netfilum.Server.Fs.View.{
  View, IsFileSystem, Same, Same-trans, Resized, Created, Removed, resize,
}
use netfilum.Server.Resolve.{RpcServer, resolve_existing, resolve_for_new_path}
use netfilum.Server.Resolve.Laws.{resolve_existing-keeps, resolve_for_new_path-keeps}
use netfilum.Server.Attributes.{attr_for_path, attr_of_metadata}
use netfilum.Server.Files as Files
use netfilum.Server.Contract.{is_directory}

module _ (F : Fs) (server : RpcServer) where
  -- The path was found, and the disk is as it was.
  pub resolve_existing-eq_ok :
      (path : Text) (s t : F.State) (p : PathBuf)
      → resolve_existing F server path s ≡ (ok p, t)
      → ((resolve_existing F server path s).0 ≡ ok p) × (t ≡ s)
  resolve_existing-eq_ok path s t p h = ground (arith, resolve_existing-keeps F server path s)

  pub resolve_for_new_path-eq_ok :
      (path : Text) (s t : F.State) (p : PathBuf)
      → resolve_for_new_path F server path s ≡ (ok p, t)
      → ((resolve_for_new_path F server path s).0 ≡ ok p) × (t ≡ s)
  resolve_for_new_path-eq_ok path s t p h =
      ground (arith, resolve_for_new_path-keeps F server path s)

  pub attr_for_path-eq_ok :
      (p : PathBuf) (s t : F.State) (a : FileAttr)
      → attr_for_path F p s ≡ (ok a, t)
      → (m : Metadata) × (F.metadata p s ≡ ok m) × (a ≡ attr_of_metadata m) × (t ≡ s)
  unfolding attr_for_path
  attr_for_path-eq_ok p s t a h = elim (Result-cases (F.metadata p s)) [
    | inr (x, e) ↦ absurd (ground arith)
    | inl (m, e) ↦ (m, e, ground arith, ground arith)
  ]

  pub can_delete_at-eq_ok :
      (p : PathBuf) (kind : EntryKind) (s t : F.State)
      → Files.can_delete_at F server p kind s ≡ (ok tt, t)
      → (m : Metadata) × (F.metadata p s ≡ ok m)
        × (m.is_dir ≡ is_directory kind)
        × (is_directory kind ≡ true → F.read_dir p s ≡ ok [])
        × (t ≡ s)
  unfolding Files.can_delete_at
  can_delete_at-eq_ok p file s t h = elim (Result-cases (F.metadata p s)) [
    | inr (x, e) ↦ absurd (ground arith)
    | inl (m, e) ↦ (m, e, ground arith, λ k. absurd (ground arith), ground arith)
  ]
  can_delete_at-eq_ok p directory s t h = elim (Result-cases (F.metadata p s)) [
    | inr (x, e) ↦ absurd (ground arith)
    | inl (m, e) ↦ (m, e, ground arith, λ k. ground arith, ground arith)
  ]

module _ (F : Fs) (V : View F) (L : IsFileSystem F V) (server : RpcServer) where
  pub create_at-Created :
      (p : PathBuf) (kind : EntryKind) (s t : F.State)
      → Files.create_at F server p kind s ≡ (ok tt, t)
      → (i : ℕ) × Created F V s t p i
  unfolding Files.create_at
  create_at-Created p file s t h = elim (Result-cases (F.open_file Files.write_new p s).0) [
    | inr (x, e) ↦ absurd (ground arith)
    | inl (f, e) ↦
        let u = (F.open_file Files.write_new p s).1 in
        let made = L.create_new Files.write_new p s f refl e in
        let same = L.flush f u (ground arith) in
        let left : (F.flush f u).1 ≡ t = ground arith in
        (
          V.number f,
          subst (λ t. Created F V s t p (V.number f)) left
              (
                made.0,
                same.0 p ∙ made.1,
                same.1 (V.number f) ∙ made.2,
                λ q i k. same.0 q ∙ made.3 q i k,
                λ j n. same.1 j ∙ made.4 j n,
              ),
        )
  ]
  create_at-Created p directory s t h =
      let left : (F.create_dir p s).1 ≡ t = ground arith in
      let (i, made) = L.create_dir p s (ground arith) in
      (i, subst (λ t. Created F V s t p i) left made)

  -- What was created is of the kind that was asked for.
  pub create_at-kind :
      (p : PathBuf) (kind : EntryKind) (s t : F.State) (m : Metadata)
      → Files.create_at F server p kind s ≡ (ok tt, t)
      → F.metadata p t ≡ ok m
      → (attr_of_metadata m).kind ≡ kind
  unfolding Files.create_at attr_of_metadata
  create_at-kind p file s t m h k = elim (Result-cases (F.open_file Files.write_new p s).0) [
    | inr (x, e) ↦ absurd (ground arith)
    | inl (f, e) ↦
        let u = (F.open_file Files.write_new p s).1 in
        let left : (F.flush f u).1 ≡ t = ground arith in
        let found : F.metadata p u ≡ ok m =
          sym (L.flush_metadata p f u) ∙ ap (F.metadata p) left ∙ k in
        ground (arith, L.create_new_kind Files.write_new p s f m refl e found)
  ]
  create_at-kind p directory s t m h k =
      let left : (F.create_dir p s).1 ≡ t = ground arith in
      ground (arith, L.create_dir_kind p s m (ground arith) (ap (F.metadata p) left ∙ k))

  pub set_len_at-Resized :
      (p : PathBuf) (n : ℕ) (s t : F.State)
      → Files.set_len_at F server p n s ≡ (ok tt, t)
      → (i : ℕ) × (V.inode p s ≡ some i) × Resized F V s t i n
  unfolding Files.set_len_at
  set_len_at-Resized p n s t h = elim (Result-cases (F.open_file Files.write_only p s).0) [
    | inr (x, e) ↦ absurd (ground arith)
    | inl (f, e) ↦
        let u = (F.open_file Files.write_only p s).1 in
        let o = L.open_file Files.write_only p s f refl e in
        let r = L.set_len n f u (ground arith) in
        let left : (F.set_len n f u).1 ≡ t = ground arith in
        (
          V.number f,
          o.0,
          subst (λ t. Resized F V s t (V.number f) n) left
              (
                r.0 ∙ ap (resize n) (o.2.1 (V.number f)),
                λ j k. r.1 j k ∙ o.2.1 j,
                λ q. r.2 q ∙ o.2.0 q,
              ),
        )
  ]

  pub sync_at-Same :
      (p : PathBuf) (s t : F.State) → Files.sync_at F server p s ≡ (ok tt, t) → Same F V s t
  unfolding Files.sync_at
  sync_at-Same p s t h = elim (Result-cases (F.open_file Files.read_write p s).0) [
    | inr (x, e) ↦ absurd (ground arith)
    | inl (f, e) ↦
        let u = (F.open_file Files.read_write p s).1 in
        let o = L.open_file Files.read_write p s f refl e in
        let left : (F.sync_all f u).1 ≡ t = ground arith in
        subst (λ t. Same F V s t) left
          (Same-trans F V s u (F.sync_all f u).1 o.2 (L.sync_all f u (ground arith)))
  ]

  -- Either nothing was there to be replaced, or what stood at the target was removed.
  pub clear_target-cases :
      (q : PathBuf) (replace : Bool) (s t : F.State)
      → Files.clear_target F server q replace s ≡ (ok tt, t)
      → ((t ≡ s)
          × ((replace && is_dir_result (F.metadata q s)) ≡ false)
          × ((replace && is_file_result (F.metadata q s)) ≡ false))
        ⊎ Removed F V s t q
  unfolding Files.clear_target
  clear_target-cases q replace s t h =
      elim (Bool-cases (replace && is_dir_result (F.metadata q s))) [
        | inl d ↦
            let left : (F.remove_dir_all q s).1 ≡ t = ground arith in
            let gone = L.remove_dir_all q q s (ground arith) (path_starts_with_refl q) in
            inr (subst (λ u. Removed F V s u q) left gone)
        | inr d ↦ elim (Bool-cases (replace && is_file_result (F.metadata q s))) [
          | inl f ↦
              let left : (F.remove_file q s).1 ≡ t = ground arith in
              let gone = L.remove_file q s (ground arith) in
              inr (subst (λ u. Removed F V s u q) left gone)
          | inr f ↦ inl (ground arith, d, f)
        ]
      ]

  -- What stands at a path after a target was cleared stood there before, with the same bytes.
  pub clear_target-keeps :
      (q : PathBuf) (replace : Bool) (s t : F.State)
      → Files.clear_target F server q replace s ≡ (ok tt, t)
      → (p : PathBuf) (i : ℕ) → V.inode p t ≡ some i
      → (V.inode p s ≡ some i) × (V.content i t ≡ V.content i s)
  clear_target-keeps q replace s t h p i k = elim (clear_target-cases q replace s t h) [
    | inl (left, d, f) ↦ (ap (V.inode p) (sym left) ∙ k, ap (V.content i) left)
    | inr gone ↦ gone.1 p i k
  ]

  -- Clearing a target makes no symbolic link.
  pub clear_target-link :
      (q : PathBuf) (replace : Bool) (s t : F.State)
      → Files.clear_target F server q replace s ≡ (ok tt, t)
      → (p : PathBuf) → V.is_link p t ≡ true
      → V.is_link p s ≡ true
  clear_target-link q replace s t h p k = elim (clear_target-cases q replace s t h) [
    | inl (left, d, f) ↦ ap (V.is_link p) (sym left) ∙ k
    | inr gone ↦ gone.3 p k
  ]
