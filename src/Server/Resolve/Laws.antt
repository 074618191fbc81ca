-- ===== src/Server/Resolve/Laws.antt =====
-- What the paths that the server works on are: crates/netfilum-server/src/server.rs,
-- `resolve_existing` and `resolve_for_new_path`.
use netfilum.Prelude.{◌≡◌, arith, true, inl, inr, All}
use netfilum.Prelude.Texts.{Text}
use netfilum.Prelude.Results.{ok, Result-cases}
use netfilum.Paths.{PathBuf, join, path_starts_with}
use netfilum.Server.Path.{normalize_relative_path}
use netfilum.Server.Path.Spec.{IsPlain}
use netfilum.Server.Path.Laws.{normalize_relative_path-IsPlain}
use netfilum.Server.Fs.{Fs}
use netfilum.Server.Resolve.{
  RpcServer, joined_path, resolve_existing, resolve_for_new_path, parent_or_root,
}

-- `path` is the root with plain names behind it, and the disk resolves `checked` to a place in the
-- exported directory.
pub record IsConfined (F : Fs) (server : RpcServer) (s : F.State) (checked path : PathBuf)
    : Type 0 where
  pub names : PathBuf
  pub plain : All IsPlain names
  pub joined : path ≡ join server.root names
  pub resolved : PathBuf
  pub found : F.canonicalize checked s ≡ ok resolved
  pub within : path_starts_with resolved server.root_real ≡ true

module _ (F : Fs) (server : RpcServer) where
  resolve_existing-eq_ok :
      (relative : Text) (s : F.State) (path : PathBuf)
      → (resolve_existing F server relative s).0 ≡ ok path
      → IsConfined F server s path path
  unfolding resolve_existing
  resolve_existing-eq_ok relative s path h =
      elim (Result-cases (normalize_relative_path relative)) [
        | inr (m, e) ↦ absurd (ground arith)
        | inl (p, e) ↦ elim (Result-cases (F.canonicalize (join server.root p) s)) [
          | inr (x, f) ↦ absurd (ground arith)
          | inl (q, f) ↦ record {
            names = p;
            plain = normalize_relative_path-IsPlain relative p e;
            joined = ground arith;
            resolved = q;
            found = ground arith;
            within = ground arith;
          }
        ]
      ]

  resolve_for_new_path-eq_ok :
      (relative : Text) (s : F.State) (path : PathBuf)
      → (resolve_for_new_path F server relative s).0 ≡ ok path
      → IsConfined F server s (parent_or_root server path) path
  unfolding resolve_for_new_path
  resolve_for_new_path-eq_ok relative s path h =
      elim (Result-cases (normalize_relative_path relative)) [
        | inr (m, e) ↦ absurd (ground arith)
        | inl (p, e) ↦
            elim (Result-cases (F.canonicalize (parent_or_root server (join server.root p)) s)) [
              | inr (x, f) ↦ absurd (ground arith)
              | inl (q, f) ↦ record {
                names = p;
                plain = normalize_relative_path-IsPlain relative p e;
                joined = ground arith;
                resolved = q;
                found = ground arith;
                within = ground arith;
              }
            ]
      ]

  pub resolve_existing-keeps :
      (relative : Text) (s : F.State) → (resolve_existing F server relative s).1 ≡ s
  unfolding resolve_existing
  resolve_existing-keeps relative s = ground arith

  pub resolve_for_new_path-keeps :
      (relative : Text) (s : F.State) → (resolve_for_new_path F server relative s).1 ≡ s
  unfolding resolve_for_new_path
  resolve_for_new_path-keeps relative s = ground arith

  pub resolve_existing-joined :
      (relative : Text) (s : F.State) (path : PathBuf)
      → (resolve_existing F server relative s).0 ≡ ok path
      → joined_path server relative ≡ ok path
  unfolding resolve_existing
  resolve_existing-joined relative s path h = ground arith

  -- A path that `resolve_existing` returns is confined: it is the root joined with plain names, and
  -- the place that the disk resolves it to, symbolic links followed, lies under the real root. The
  -- disk is as it was.
  pub resolve_existing-IsConfined :
      (relative : Text) (s : F.State) (path : PathBuf)
      → (resolve_existing F server relative s).0 ≡ ok path
      → ((resolve_existing F server relative s).1 ≡ s) × IsConfined F server s path path
  resolve_existing-IsConfined relative s path h =
      (resolve_existing-keeps relative s, resolve_existing-eq_ok relative s path h)

  -- A path that `resolve_for_new_path` returns is the root joined with plain names, and its parent,
  -- or the root if it has none, is what the disk resolves to a place under the real root. The disk
  -- is as it was.
  pub resolve_for_new_path-IsConfined :
      (relative : Text) (s : F.State) (path : PathBuf)
      → (resolve_for_new_path F server relative s).0 ≡ ok path
      → ((resolve_for_new_path F server relative s).1 ≡ s)
        × IsConfined F server s (parent_or_root server path) path
  resolve_for_new_path-IsConfined relative s path h =
      (resolve_for_new_path-keeps relative s, resolve_for_new_path-eq_ok relative s path h)
