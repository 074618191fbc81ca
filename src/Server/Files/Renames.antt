-- ===== src/Server/Files/Renames.antt =====
-- `RpcServer::rename` of crates/netfilum-server/src/server.rs.
use netfilum.Prelude.{ℕ, ◌≡◌, ap, ◌∙◌, arith, true, false, none, Bool-cases, ◌⊎◌, inl, inr}
use netfilum.Prelude.Texts.{Text, codes}
use netfilum.Prelude.Results.{ok, err, map_err, Result-cases}
use netfilum.Protocol.{ErrorCode}
use netfilum.Protocol.Errors.{IoError, rpc_error_from}
use netfilum.Paths.{PathBuf, path_starts_with}
use netfilum.Server.Fs.{Fs, Metadata, succeeds}
use netfilum.Server.Fs.View.{View, IsFileSystem}
use netfilum.Server.Resolve.{RpcServer, resolve_existing, resolve_for_new_path}
use netfilum.Server.Resolve.Laws.{resolve_existing-keeps, resolve_for_new_path-keeps}
use netfilum.Server.Files.{rpc_error, rename}
use netfilum.Server.Contract.Laws.{missing}

module _ (F : Fs) (server : RpcServer) (from to : Text) (s : F.State) (p q : PathBuf) where
  -- Both paths of a request are accepted.
  abbrev pub Accepted : Type 0
  Accepted =
      ((resolve_existing F server from s).0 ≡ ok p)
      × ((resolve_for_new_path F server to s).0 ≡ ok q)

  -- A rename that must not replace, to a path where something stands, fails with `AlreadyExists` and
  -- leaves the disk as it was.
  pub rename-taken :
      Accepted
      → succeeds (F.metadata q s) ≡ true
      → rename F server from to false s
        ≡ (err (rpc_error ErrorCode.already_exists (codes "target already exists")), s)
  unfolding rename
  rename-taken a h =
      ground
        (arith, resolve_existing-keeps F server from s, resolve_for_new_path-keeps F server to s)

  rename-free :
      Accepted
      → succeeds (F.metadata q s) ≡ false
      → rename F server from to false s
        ≡ (map_err rpc_error_from (F.rename p q s).0, (F.rename p q s).1)
  unfolding rename
  rename-free a h =
      ground
        (arith, resolve_existing-keeps F server from s, resolve_for_new_path-keeps F server to s)

  rename-file :
      (m : Metadata)
      → Accepted
      → F.metadata q s ≡ ok m
      → m.is_dir ≡ false
      → m.is_file ≡ true
      → (F.remove_file q s).0 ≡ ok tt
      → let t = (F.remove_file q s).1 in
        rename F server from to true s
        ≡ (map_err rpc_error_from (F.rename p q t).0, (F.rename p q t).1)
  unfolding rename
  rename-file m a e d f r =
      ground
        (arith, resolve_existing-keeps F server from s, resolve_for_new_path-keeps F server to s)

  rename-directory :
      (m : Metadata)
      → Accepted
      → F.metadata q s ≡ ok m
      → m.is_dir ≡ true
      → (F.remove_dir_all q s).0 ≡ ok tt
      → let t = (F.remove_dir_all q s).1 in
        rename F server from to true s
        ≡ (map_err rpc_error_from (F.rename p q t).0, (F.rename p q t).1)
  unfolding rename
  rename-directory m a e d r =
      ground
        (arith, resolve_existing-keeps F server from s, resolve_for_new_path-keeps F server to s)

module _ (F : Fs) (V : View F) (L : IsFileSystem F V) (server : RpcServer) where
  -- What a rename without replacement leaves behind.
  abbrev pub HasMoved : Text → Text → F.State → Type 0
  HasMoved from to s =
      (p : PathBuf) × (q : PathBuf) × Accepted F server from to s p q
      × (succeeds (F.metadata q s) ≡ false)
      × (V.inode p (rename F server from to false s).1 ≡ none)
      × ((V.is_link p s ≡ true) ⊎ (V.inode q (rename F server from to false s).1 ≡ V.inode p s))
      × ((i : ℕ) → V.content i (rename F server from to false s).1 ≡ V.content i s)

  -- A rename that must not replace and that succeeds: both paths are accepted, nothing stood at the
  -- new path, the old path stands for nothing, the new path stands for the file that the old one
  -- stood for, unless the old one was itself a symbolic link, and every file keeps its bytes.
  pub rename-moves :
      (from to : Text) (s : F.State)
      → (rename F server from to false s).0 ≡ ok tt
      → HasMoved from to s
  unfolding rename
  rename-moves from to s h =
      let keeps = resolve_existing-keeps F server from s in
      elim (Result-cases (resolve_existing F server from s).0) [
        | inr (x, e) ↦ absurd (ground arith)
        | inl (p, e) ↦ elim (Result-cases (resolve_for_new_path F server to s).0) [
          | inr (x, k) ↦ absurd (ground (arith, keeps))
          | inl (q, k) ↦ elim (Bool-cases (succeeds (F.metadata q s))) [
            | inl taken ↦ absurd (ground (arith, rename-taken F server from to s p q (e, k) taken))
            | inr free ↦
                let done = rename-free F server from to s p q (e, k) free in
                let works : (F.rename p q s).0 ≡ ok tt = ground (arith, done) in
                let gone = L.rename_gone p q s (missing F V L server q s free) works in
                (
                  p,
                  q,
                  (e, k),
                  free,
                  ap (λ r. V.inode p r.1) done ∙ gone,
                  elim (Bool-cases (V.is_link p s)) [
                    | inl link ↦ inl link
                    | inr plain ↦ inr (ap (λ r. V.inode q r.1) done ∙ L.rename p q s plain works)
                  ],
                  λ i. ap (λ r. V.content i r.1) done ∙ L.rename_content p q s works i,
                )
          ]
        ]
      ]

  -- The request failed, and the path stands for nothing.
  abbrev pub HasLost : Text → Text → F.State → PathBuf → Type 0
  HasLost from to s p =
      (e : IoError) × ((rename F server from to true s).0 ≡ err (rpc_error_from e))
      × (V.inode p (rename F server from to true s).1 ≡ none)

  -- A rename that may replace, of a file to its own path, deletes the file where the operating system
  -- can remove it: the request removes what stands at the target before it renames, and where this
  -- removal succeeds, the request ends in an error and the path stands for nothing.
  pub rename-self_deletes :
      (from to : Text) (s : F.State) (p : PathBuf) (m : Metadata)
      → Accepted F server from to s p p
      → F.metadata p s ≡ ok m
      → m.is_dir ≡ false
      → m.is_file ≡ true
      → (F.remove_file p s).0 ≡ ok tt
      → HasLost from to s p
  rename-self_deletes from to s p m a found d f removed =
      let t = (F.remove_file p s).1 in
      let gone = L.remove_file p s removed in
      let (e, failed) = L.rename_missing p p t gone.2 gone.0 in
      let done = rename-file F server from to s p p m a found d f removed in
      (
        e,
        ap (λ r. r.0) done ∙ ap (λ r. map_err rpc_error_from r.0) failed,
        ap (λ r. V.inode p r.1) done ∙ ap (λ r. V.inode p r.1) failed ∙ gone.0,
      )

  -- A rename that may replace, to a directory which the path lies in, or to the path itself where that
  -- is a directory, deletes what is at the path with the whole directory where the operating system
  -- can remove it: the target is removed with all that is in it before the rename, and where this
  -- removal succeeds, the request ends in an error and the path stands for nothing.
  pub rename-inside_deletes :
      (from to : Text) (s : F.State) (p q : PathBuf) (m : Metadata)
      → Accepted F server from to s p q
      → path_starts_with p q ≡ true
      → F.metadata q s ≡ ok m
      → m.is_dir ≡ true
      → (F.remove_dir_all q s).0 ≡ ok tt
      → HasLost from to s p
  rename-inside_deletes from to s p q m a inside found d removed =
      let t = (F.remove_dir_all q s).1 in
      let gone = L.remove_dir_all q p s removed inside in
      let (e, failed) = L.rename_missing p q t gone.2 gone.0 in
      let done = rename-directory F server from to s p q m a found d removed in
      (
        e,
        ap (λ r. r.0) done ∙ ap (λ r. map_err rpc_error_from r.0) failed,
        ap (λ r. V.inode p r.1) done ∙ ap (λ r. V.inode p r.1) failed ∙ gone.0,
      )
