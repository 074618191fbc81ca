-- ===== src/Client/Operations/Sizes/Lengths.antt =====
-- Constrained writes of crates/netfilum-client/src/mount.rs, with the server of
-- crates/netfilum-server/src/server.rs behind them, and the lengths of the files.
use netfilum.Prelude.{
  ℕ, ◌+◌, ◌≤◌, ◌≡◌, refl, ap, sym, ◌∙◌, subst, arith, inl, inr, true, false, Option, none, some,
  length, ==_iff, ◌==◌, Bool-cases,
}
use netfilum.Prelude.Texts.{Text, Bytes}
use netfilum.Prelude.Results.{Result, ok, Result-cases}
use netfilum.Protocol.{Request, Response, FileAttr}
use netfilum.Paths.{PathBuf}
use netfilum.Server.Fs.{Fs}
use netfilum.Server.Fs.View.{View, IsFileSystem, length-overwrite}
use netfilum.Server.Attributes.{attr_of_metadata}
use netfilum.Server.Resolve.{RpcServer}
use netfilum.Server.Files.Contents.{same_path}
use netfilum.Server.Dispatch.{dispatch}
use netfilum.Server.Contract.{Found}
use netfilum.Server.Contract.Dispatch.{dispatch-Fulfils}
use netfilum.Client.Attributes.{FileInfo}
use netfilum.Client.Context.{Environment, call, send_request, fetch_attr}
use netfilum.Client.Served.{served}
use netfilum.Client.Operations.Constrained.{asked, Fits, write-IsConstrained}
use netfilum.Client.Operations.{Opened, on_path, write, write_payload}
use netfilum.Client.Operations.Sizes.{IsRegular, same_metadata, size_of}

module _ (E : Environment) (F : Fs) (V : View F) (L : IsFileSystem F V) (server : RpcServer) where
  -- Every file is as long as it was.
  abbrev pub SameLengths : F.State → F.State → Type 0
  SameLengths s t = (i : ℕ) → length (V.content i t) ≡ length (V.content i s)

  -- A write before the end of the file that it goes to.
  inside :
      (path : Text) (offset : ℕ) (d : Bytes) (k : ℕ) (s t : F.State) (r : Response)
      → (p : PathBuf) → Found F V server path s p
      → V.inode p s ≡ some k
      → offset + length d ≤ length (V.content k s)
      → dispatch F server (Request.write path offset d false) s ≡ (ok r, t)
      → SameLengths s t
  inside path offset d k s t r p found number fits h i =
      let (q, j, a, found', answer, attr, number', (written, others, paths)) =
        dispatch-Fulfils F V L server (Request.write path offset d false) s t r h in
      let q-eq : q ≡ p = same_path F V L server path s s q p found' found in
      let j-eq : j ≡ k = ground (arith, q-eq) in
      elim (Bool-cases (i == j)) [
        | inr ne ↦ ap length (others i (λ e. absurd (ground (arith, ==_iff i j))))
        | inl e ↦
            let i-eq : i ≡ j = (==_iff i j).0 e in
            rw i-eq (
              ap length written
              ∙ length-overwrite offset d (V.content j s) (ground arith)
              ∙ ground arith)
      ]

  -- The attributes that a mount gets for a path.
  fetched :
      (o : Opened (served E F server)) (a : FileAttr)
      → (on_path (served E F server) (fetch_attr (served E F server)) o).0 ≡ ok a
      → ((dispatch F server (Request.stat o.context.path) o.mounted.world).0 ≡ ok (Response.attr a))
        × ((on_path (served E F server) (fetch_attr (served E F server)) o).1.mounted.world
            ≡ (dispatch F server (Request.stat o.context.path) o.mounted.world).1)
        × ((on_path (served E F server) (fetch_attr (served E F server)) o).1.context ≡ o.context)
  unfolding fetch_attr send_request
  fetched o a h =
      elim (Result-cases (dispatch F server (Request.stat o.context.path) o.mounted.world).0) [
        | inr (x, e) ↦ absurd (ground arith)
        | inl (Response.attr b, e) ↦ (ground arith, ground arith, ground arith)
        | inl (_, e) ↦ absurd (ground arith)
      ]

  -- The size that a mount gets for a regular file is the number of its bytes.
  reported :
      (o : Opened (served E F server)) (a : FileAttr)
      → (on_path (served E F server) (fetch_attr (served E F server)) o).0 ≡ ok a
      → IsRegular E F V L server o.context.path o.mounted.world
      → (p : PathBuf) × (k : ℕ) × Found F V server o.context.path o.mounted.world p
        × (V.inode p o.mounted.world ≡ some k)
        × (a.size ≡ length (V.content k o.mounted.world))
        × ((asked (served E F server) o).mounted.world ≡ o.mounted.world)
        × ((asked (served E F server) o).context ≡ o.context)
  unfolding attr_of_metadata
  reported o a h (q, n, found', stat', regular) =
      let (answered, left, context) = fetched o a h in
      let request = Request.stat o.context.path in
      let s = o.mounted.world in
      let t = (dispatch F server request s).1 in
      let (p, a', found, is, (m, stat, attrs), same) =
        dispatch-Fulfils F V L server request s t (Response.attr a) (ground arith) in
      let q-eq : q ≡ p = same_path F V L server o.context.path s s q p found' found in
      let m-eq : m ≡ n =
        same_metadata E F V L server p s n m (ap (λ x. F.metadata x s) (sym q-eq) ∙ stat')
          (rw (← same) stat) in
      let (k, number, len) = L.metadata_found p s m (rw (← same) stat) in
      (
        p,
        k,
        found,
        number,
        ap (size_of E F V L server) is
            ∙ ap (λ x. x.size) attrs
            ∙ len (ap (λ x. x.is_file) m-eq ∙ regular),
        left ∙ same,
        context,
      )

  -- A write that succeeds is one answered request.
  answered_write :
      (q : Bytes) (offset : ℕ) (o : Opened (served E F server)) (w : ℕ × Option FileInfo)
      → (write (served E F server) q offset false false o).0 ≡ ok w
      → (r : Response) × (dispatch F server
            (Request.write o.context.path offset q false)
            o.mounted.world
          ≡ (ok r, (write (served E F server) q offset false false o).1.mounted.world))
  unfolding write write_payload call
  answered_write q offset o w h =
      elim (Result-cases
        (dispatch F server (Request.write o.context.path offset q false) o.mounted.world).0) [
          | inr (x, e) ↦ absurd (ground arith)
          | inl (Response.write_result n a, e) ↦ (Response.write_result n a, ground arith)
          | inl (_, e) ↦ absurd (ground arith)
        ]

  kept_lengths : (s t : F.State) → t ≡ s → SameLengths s t
  kept_lengths s t h i = ap (λ w. length (V.content i w)) h

  abbrev after_constraint :
      Option Bytes
      → ℕ
      → Opened (served E F server)
      → Result (served E F server).FspError (ℕ × Option FileInfo) × Opened (served E F server)
  after_constraint none offset u = (ok (0, none), u)
  after_constraint (some q) offset u = write (served E F server) q offset false false u

  after_constraint-eq :
      (d : Option Bytes) (offset : ℕ) (u : Opened (served E F server))
      → elim d [
        | none ↦ (ok (0, none), u)
        | some q ↦ write (served E F server) q offset false false u
      ]
        ≡ after_constraint d offset u
  after_constraint-eq none offset u = refl
  after_constraint-eq (some q) offset u = refl

  -- What is left of a constrained write, whose file is as long as its attributes say.
  limited :
      (o u : Opened (served E F server)) (w : ℕ × Option FileInfo)
      → (size offset k : ℕ) (buffer : Bytes) (d : Option Bytes) (p : PathBuf)
      → Found F V server o.context.path o.mounted.world p
      → V.inode p o.mounted.world ≡ some k
      → size ≡ length (V.content k o.mounted.world)
      → u.mounted.world ≡ o.mounted.world
      → u.context ≡ o.context
      → Fits size offset buffer d
      → (after_constraint d offset u).0 ≡ ok w
      → SameLengths o.mounted.world (after_constraint d offset u).1.mounted.world
  limited o u w size offset k buffer none p found number is left context fits h =
      kept_lengths o.mounted.world u.mounted.world left
  limited o u w size offset k buffer (some q) p found number is left context fits h =
      let (r, answered) = answered_write q offset u w h in
      let at_path = ap (λ c. c.path) context in
      subst (λ s. SameLengths s (after_constraint (some q) offset u).1.mounted.world) left
        (inside u.context.path offset q k u.mounted.world
          (after_constraint (some q) offset u).1.mounted.world r p (rw (at_path, left) found)
          (rw left number) (ground (arith, left)) answered)

  -- A constrained write at the offset that the caller gives changes no file's length where it succeeds,
  -- if its path stands for a regular file.
  pub write-SameLengths :
      (buffer : Bytes) (offset : ℕ) (o : Opened (served E F server)) (w : ℕ × Option FileInfo)
      → IsRegular E F V L server o.context.path o.mounted.world
      → (write (served E F server) buffer offset false true o).0 ≡ ok w
      → SameLengths o.mounted.world
          (write (served E F server) buffer offset false true o).1.mounted.world
  unfolding write
  write-SameLengths buffer offset o w regular h =
      elim (Result-cases (on_path (served E F server) (fetch_attr (served E F server)) o).0) [
        | inr (x, e) ↦ absurd (ground arith)
        | inl (a, e) ↦
            let (p, k, found, number, size, left, context) = reported o a e regular in
            let (d, fits, eq) = write-IsConstrained (served E F server) buffer offset false o a e in
            let same = eq ∙ after_constraint-eq d offset (asked (served E F server) o) in
            subst (λ x. SameLengths o.mounted.world x.1.mounted.world) (sym same)
              (limited o (asked (served E F server) o) w a.size offset k buffer d p found number
                size left context fits (ap (λ x. x.0) (sym same) ∙ h))
      ]
