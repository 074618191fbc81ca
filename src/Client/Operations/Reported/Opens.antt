-- ===== src/Client/Operations/Reported/Opens.antt =====
-- The errors of the operations of crates/netfilum-client/src/mount.rs on an open file.
use netfilum.Prelude.{◌≡◌, arith, inl, inr}
use netfilum.Prelude.Texts.{Text}
use netfilum.Prelude.Results.{ok, err, Run, Result-cases, ◌>>=◌, pure, lift}
use netfilum.Protocol.{Request, Response}
use netfilum.Server.Fs.{Fs}
use netfilum.Server.Resolve.{RpcServer}
use netfilum.Server.Dispatch.Typed.{shape_of, answer_shape}
use netfilum.Client.Attributes.{FileInfo}
use netfilum.Client.Context.{Environment, Mounted}
use netfilum.Client.Served.{served}
use netfilum.Client.Operations.{Opened, on_path, on_buffer}
use netfilum.Client.Operations.Reported.{Reported, Reports, Asks, asked-Reports, asked-shape}

module _ (E : Environment) (F : Fs) (server : RpcServer) where
  abbrev S : Environment
  S = served E F server

  -- A run over an open file with this path: it keeps the path, and its errors are reported.
  pub record Opens {A : Type 0} (path : Text) (Asked : Request → Type 0)
      (m : Run (Opened S) E.FspError A) : Type 0 where
    pub keeps : (o : Opened S) → o.context.path ≡ path → (m o).1.context.path ≡ path
    pub reports :
        (o : Opened S)
        → o.context.path ≡ path
        → (e : E.FspError) → (m o).0 ≡ err e
        → Reported E F server Asked e

  module _ (path : Text) (Asked : Request → Type 0) where
    pub pure-Opens : {A : Type 0} (a : A) → Opens path Asked (pure a)
    pure-Opens a = record { keeps = λ o h. h; reports = λ o h e k. absurd (ground arith) }

    -- What follows may take as given what `m` promises of its answers.
    then-Opens :
        {A B : Type 0} (Q : A → Type 0) (m : Run (Opened S) E.FspError A)
        (f : A → Run (Opened S) E.FspError B)
        → Opens path Asked m
        → ((o : Opened S) → o.context.path ≡ path → (a : A) → (m o).0 ≡ ok a → Q a)
        → ((a : A) → Q a → Opens path Asked (f a))
        → Opens path Asked (m >>= f)
    then-Opens Q m f g q h = record {
      keeps = λ o p. elim (Result-cases (m o).0) [
        | inl (a, e) ↦ rw e ((h a (q o p a e)).keeps (m o).1 (g.keeps o p))
        | inr (x, e) ↦ rw e (g.keeps o p)
      ];
      reports = λ o p e k. elim (Result-cases (m o).0) [
        | inl (a, i) ↦ (h a (q o p a i)).reports (m o).1 (g.keeps o p) e (ground arith)
        | inr (x, i) ↦ g.reports o p e (ground arith)
      ];
    }

    pub >>=-Opens :
        {A B : Type 0} (m : Run (Opened S) E.FspError A) (f : A → Run (Opened S) E.FspError B)
        → Opens path Asked m
        → ((a : A) → Opens path Asked (f a))
        → Opens path Asked (m >>= f)
    >>=-Opens m f g h = then-Opens (λ a. Unit) m f g (λ o p a e. tt) (λ a u. h a)

    pub on_path-Opens :
        {A : Type 0} (m : Text → Run (Mounted S) E.FspError A)
        → Reports E F server Asked (m path)
        → Opens path Asked (on_path S m)
    on_path-Opens m g = record {
      keeps = λ o h. h;
      reports = λ o h e k. g o.mounted e (ground arith);
    }

    -- A request, and what follows an answer by the variant of the request's kind.
    pub ask-then-Opens :
        {A : Type 0} (r : Request) (m : Text → Run (Mounted S) E.FspError Response)
        (f : Response → Run (Opened S) E.FspError A)
        → Asks E F server r (m path)
        → Asked r
        → ((a : Response) → shape_of a ≡ answer_shape r → Opens path Asked (f a))
        → Opens path Asked (on_path S m >>= f)
    ask-then-Opens r m f g asked h =
        then-Opens (λ a. shape_of a ≡ answer_shape r) (on_path S m) f
          (on_path-Opens m (asked-Reports E F server Asked r (m path) g asked))
          (λ o p a e. asked-shape E F server r (m path) g o.mounted a (ground arith)) h

    pub on_buffer-Opens :
        (name : Text) (i : FileInfo)
        → Asked (Request.read_dir path)
        → Opens path Asked (on_buffer S (lift (E.set_name name) >>= λ n. E.write_entry n i))
    on_buffer-Opens name i listed = record {
      keeps = λ o h. h;
      reports = λ o h e k. elim (Result-cases (E.set_name name)) [
        | inl (n, f) ↦ Reported.unwritten path n i o.context.dir_buffer listed (ground arith)
        | inr (x, f) ↦ Reported.unnamed path name listed (ground arith)
      ];
    }
