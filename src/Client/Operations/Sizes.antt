-- ===== src/Client/Operations/Sizes.antt =====
-- The sizes of files under the operations of crates/netfilum-client/src/mount.rs, with the server of
-- crates/netfilum-server/src/server.rs behind them.
pub mod Lengths
use netfilum.Prelude.{
  ℕ, ◌+◌, ◌≤◌, ◌≡◌, refl, ap, sym, ◌∙◌, subst, arith, inl, inr, true, false, Option, none, some, [],
  ◌∷◌, zero, suc, length, ==_iff, ◌==◌, Bool-cases,
}
use netfilum.Prelude.Texts.{Text, Bytes}
use netfilum.Prelude.Results.{Result, ok, Result-cases}
use netfilum.Protocol.{Request, Response, FileAttr}
use netfilum.Paths.{PathBuf}
use netfilum.Server.Fs.{Fs, Metadata}
use netfilum.Server.Fs.View.{View, IsFileSystem, resize, length-overwrite}
use netfilum.Server.Attributes.{attr_of_metadata}
use netfilum.Server.Resolve.{RpcServer}
use netfilum.Server.Files.Contents.{same_path}
use netfilum.Server.Dispatch.{dispatch}
use netfilum.Server.Contract.{Found}
use netfilum.Server.Contract.Dispatch.{dispatch-Fulfils}
use netfilum.Client.Attributes.{FileInfo, fill_file_info}
use netfilum.Client.Context.{Environment, call, send_request, fetch_attr}
use netfilum.Client.Served.{served}
use netfilum.Client.Operations.Constrained.{asked, Fits, write-IsConstrained}
use netfilum.Client.Operations.{Opened, on_path, set_file_size, write, write_payload}

length-resize : (n : ℕ) (c : Bytes) → length (resize n c) ≡ n
unfolding resize
length-resize zero c = refl
length-resize (suc n) [] = ap suc (length-resize n [])
length-resize (suc n) (x ∷ c) = ap suc (length-resize n c)

module _ (E : Environment) (F : Fs) (V : View F) (L : IsFileSystem F V) (server : RpcServer) where
  -- The path of a request stands for a regular file.
  abbrev pub IsRegular : Text → F.State → Type 0
  IsRegular path s =
      (p : PathBuf) × (m : Metadata) × Found F V server path s p
      × (F.metadata p s ≡ ok m)
      × (m.is_file ≡ true)

  set_file_size-eq_ok :
      (size : ℕ) (o : Opened (served E F server)) (info : FileInfo)
      → (set_file_size (served E F server) size false o).0 ≡ ok info
      → (a : FileAttr) × ((dispatch F server
            (Request.set_len o.context.path size false)
            o.mounted.world).0
          ≡ ok (Response.attr a))
        × (info ≡ fill_file_info a)
  unfolding set_file_size call
  set_file_size-eq_ok size o info h =
      elim (Result-cases
        (dispatch F server (Request.set_len o.context.path size false) o.mounted.world).0) [
          | inr (x, e) ↦ absurd (ground arith)
          | inl (Response.attr a, e) ↦ (a, e, ground arith)
          | inl (_, e) ↦ absurd (ground arith)
        ]

  regular_size :
      (p : PathBuf) (i : ℕ) (s : F.State) (m : Metadata)
      → F.metadata p s ≡ ok m
      → m.is_file ≡ true
      → V.inode p s ≡ some i
      → m.len ≡ length (V.content i s)
  regular_size p i s m stat regular number =
      let (j, number', len) = L.metadata_found p s m stat in
      let j-eq : j ≡ i = ground arith in len regular ∙ ap (λ k. length (V.content k s)) j-eq

  abbrev pub size_of : Response → ℕ
  size_of (Response.attr a) = a.size
  size_of _ = 0

  pub same_metadata :
      (p : PathBuf) (s : F.State) (m n : Metadata)
      → F.metadata p s ≡ ok m
      → F.metadata p s ≡ ok n
      → n ≡ m
  same_metadata p s m n h k = ground arith

  -- Where the size of an open file is set, and what its path then stands for is a regular file, that
  -- size is reported.
  pub set_file_size-eq-file_size :
      (size : ℕ) (o : Opened (served E F server)) (info : FileInfo)
      → (set_file_size (served E F server) size false o).0 ≡ ok info
      → IsRegular o.context.path (set_file_size (served E F server) size false o).1.mounted.world
      → info.file_size ≡ size
  unfolding set_file_size call fill_file_info attr_of_metadata
  set_file_size-eq-file_size size o info h (q, n, found', stat', regular) =
      let request = Request.set_len o.context.path size false in
      let (a, answered, eq) = set_file_size-eq_ok size o info h in
      let t = (dispatch F server request o.mounted.world).1 in
      let left : t ≡ (set_file_size (served E F server) size false o).1.mounted.world =
        ground arith in
      let (p, i, a', found, is, (m, stat, attrs), number, resized) =
        dispatch-Fulfils F V L server request o.mounted.world t (Response.attr a) (ground arith) in
      let world = (set_file_size (served E F server) size false o).1.mounted.world in
      let q-eq : q ≡ p =
        same_path F V L server o.context.path world o.mounted.world q p found' found in
      let m-eq : n ≡ m =
        same_metadata p world m n (rw left at stat)
          (ap (λ x. F.metadata x world) (sym q-eq) ∙ stat') in
      let number' : V.inode p t ≡ some i = resized.2 p ∙ number in
      ap (λ x. x.file_size) eq
      ∙ ap size_of is
      ∙ ap (λ x. x.size) attrs
      ∙ regular_size p i t m stat (ap (λ x. x.is_file) (sym m-eq) ∙ regular) number'
      ∙ ap length resized.0
      ∙ length-resize size (V.content i o.mounted.world)
