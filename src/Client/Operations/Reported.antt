-- ===== src/Client/Operations/Reported.antt =====
-- Where the errors come from that the operations of crates/netfilum-client/src/mount.rs return, with the
-- server of crates/netfilum-server/src/server.rs behind them.
pub mod Opens
pub mod Runs
pub mod Listings
use netfilum.Prelude.{◌≡◌, refl, arith, ◌⊎◌, inl, inr, List, [], ◌∷◌}
use netfilum.Prelude.Texts.{Text}
use netfilum.Prelude.Results.{Result, ok, err, Run, Result-cases, ◌>>=◌, map_err}
use netfilum.Protocol.{Request, Response, RpcError, FileAttr, DirEntry}
use netfilum.Protocol.Errors.{IoError, to_io_error}
use netfilum.Server.Fs.{Fs}
use netfilum.Server.Resolve.{RpcServer}
use netfilum.Server.Dispatch.{dispatch}
use netfilum.Server.Dispatch.Typed.{Shape, shape_of, answer_shape, dispatch-answer_shape}
use netfilum.Client.Attributes.{FileInfo}
use netfilum.Client.Context.{
  Environment, Mounted, call, send_request, expect_attr, fetch_attr, fetch_dir_entries,
}
use netfilum.Client.Served.{served}
use netfilum.Client.Operations.{
  Opened, write_entries, write_dir_entry, on_buffer, fill_buffer, write_special_dir_entry,
}

module _ (E : Environment) (F : Fs) (server : RpcServer) where
  abbrev S : Environment
  S = served E F server

  -- An error is the server's for one of the requests that are asked, as an `io::Error`; or, where a
  -- listing is asked, winfsp takes no such name or no more entries; or, where nothing is asked, it is
  -- that access is denied.
  pub data Reported (Asked : Request → Type 0) (e : E.FspError) : Type 0 where
    answered :
        (r : Request) (s : F.State) (x : RpcError)
        → Asked r
        → (dispatch F server r s).0 ≡ err x
        → e ≡ E.from_io (to_io_error x)
        → Reported Asked e
    unnamed :
        (path name : Text)
        → Asked (Request.read_dir path)
        → E.set_name name ≡ err e
        → Reported Asked e
    unwritten :
        (path : Text) (name : E.EntryName) (i : FileInfo) (b : E.DirBuffer)
        → Asked (Request.read_dir path)
        → (E.write_entry name i b).0 ≡ err e
        → Reported Asked e
    denied : ((r : Request) → Asked r → ⊥) → e ≡ E.access_denied → Reported Asked e

  -- Every error of a run is reported.
  abbrev pub Reports : {W A : Type 0} → (Request → Type 0) → Run W E.FspError A → Type 0
  Reports Asked m = (s : _) (e : E.FspError) → (m s).0 ≡ err e → Reported Asked e

  pub >>=-Reports :
      {W A B : Type 0} (Asked : Request → Type 0) (m : Run W E.FspError A)
      (f : A → Run W E.FspError B)
      → Reports Asked m
      → ((a : A) → Reports Asked (f a))
      → Reports Asked (m >>= f)
  >>=-Reports Asked m f g h s e k = elim (Result-cases (m s).0) [
    | inl (a, o) ↦ h a (m s).1 e (ground arith)
    | inr (x, o) ↦ g s e (ground arith)
  ]

  -- What a run that asks for one request gives for what the server answers.
  abbrev pub received : Result RpcError Response → Result E.FspError Response
  received (ok a) = ok a
  received (err x) = err (E.from_io (to_io_error x))

  -- A run that asks the server for one request.
  abbrev pub Asks : {W : Type 0} → Request → Run W E.FspError Response → Type 0
  Asks r m = (s : _) → (w : F.State) × ((m s).0 ≡ received (dispatch F server r w).0)

  pub call-Asks : (r : Request) → Asks r (call S r)
  unfolding call
  call-Asks r s = elim (Result-cases (dispatch F server r s.world).0) [
    | inl (a, e) ↦ (s.world, ground arith)
    | inr (x, e) ↦ (s.world, ground arith)
  ]

  send_request-Asks : (r : Request) → Asks r (send_request S r)
  unfolding send_request
  send_request-Asks r s = elim (Result-cases (dispatch F server r s.world).0) [
    | inl (a, e) ↦ (s.world, ground arith)
    | inr (x, e) ↦ (s.world, ground arith)
  ]

  -- The answer is the variant of the request's kind, and an error is the server's.
  pub asked-shape :
      {W : Type 0} (r : Request) (m : Run W E.FspError Response)
      → Asks r m
      → (s : W) (a : Response) → (m s).0 ≡ ok a
      → shape_of a ≡ answer_shape r
  asked-shape r m g s a k =
      let (w, o) = g s in
      elim (Result-cases (dispatch F server r w).0) [
        | inl (b, d) ↦ ground (arith, dispatch-answer_shape F server r w b d)
        | inr (x, d) ↦ absurd (ground arith)
      ]

  pub asked-Reports :
      {W : Type 0} (Asked : Request → Type 0) (r : Request) (m : Run W E.FspError Response)
      → Asks r m
      → Asked r
      → Reports Asked m
  asked-Reports Asked r m g asked s e k =
      let (w, o) = g s in
      elim (Result-cases (dispatch F server r w).0) [
        | inl (a, d) ↦ absurd (ground arith)
        | inr (x, d) ↦ answered r w x asked d (ground arith)
      ]

  pub call-Reports : (Asked : Request → Type 0) (r : Request) → Asked r → Reports Asked (call S r)
  call-Reports Asked r asked = asked-Reports Asked r (call S r) (call-Asks r) asked

  -- A request, and what follows an answer by the variant of its kind.
  pub ask-then :
      {W A : Type 0} (Asked : Request → Type 0) (r : Request) (m : Run W E.FspError Response)
      (f : Response → Run W E.FspError A)
      → Asks r m
      → Asked r
      → ((a : Response) → shape_of a ≡ answer_shape r → Reports Asked (f a))
      → Reports Asked (m >>= f)
  ask-then Asked r m f g asked h s e k = elim (Result-cases (m s).0) [
    | inl (a, o) ↦ h a (asked-shape r m g s a o) (m s).1 e (ground arith)
    | inr (x, o) ↦ asked-Reports Asked r m g asked s e (ground arith)
  ]

  -- The attributes that are expected are there.
  pub expect_attr-Reports :
      (Asked : Request → Type 0) (t : Text) (a : Response)
      → shape_of a ≡ Shape.attr
      → Reports Asked (expect_attr S t a)
  expect_attr-Reports Asked t a h s e k = absurd (ground arith)

  pub fetch_attr-Reports :
      (Asked : Request → Type 0) (path : Text)
      → Asked (Request.stat path)
      → Reports Asked (fetch_attr S path)
  unfolding fetch_attr
  fetch_attr-Reports Asked path asked =
      ask-then Asked (Request.stat path) (send_request S (Request.stat path)) _
        (send_request-Asks (Request.stat path)) asked (λ a h. expect_attr-Reports Asked _ a h)

  pub fetch_dir_entries-Reports :
      (Asked : Request → Type 0) (path : Text)
      → Asked (Request.read_dir path)
      → Reports Asked (fetch_dir_entries S path)
  unfolding fetch_dir_entries
  fetch_dir_entries-Reports Asked path asked =
      ask-then Asked (Request.read_dir path) (send_request S (Request.read_dir path)) _
        (send_request-Asks (Request.read_dir path)) asked (λ a h s e k. absurd (ground arith))
