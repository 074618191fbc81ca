-- ===== src/Client/Operations/Matching/Twins.antt =====
-- The requests of crates/netfilum-client/src/mount.rs over two servers that answer alike.
use netfilum.Prelude.{◌≡◌, subst, arith}
use netfilum.Prelude.Texts.{Text}
use netfilum.Prelude.Results.{Run}
use netfilum.Protocol.{Request, Response}
use netfilum.Protocol.Errors.{IoError}
use netfilum.Client.Context.{
  Environment, Mounted, RpcFileContext, call, send_request, expect_attr, expect_entries, fetch_attr,
  fetch_dir_entries,
}
use netfilum.Client.Served.{answered_by}
use netfilum.Client.Operations.{Opened, on_path}
use netfilum.Client.Operations.Matching.{Keeps, >>=-Keeps, Matches, >>=-Matches}

-- Two servers, of which the second answers to the requests that are asked as the first one does, where
-- `view` relates their worlds and the first one's is as `At` says.
pub record Twins (Asked : Request → Type 0) : Type 1 where
  pub World : Type 0
  pub Seen : Type 0
  pub send : Request → Run World IoError Response
  pub send_seen : Request → Run Seen IoError Response
  pub view : World → Seen
  pub At : World → Type 0
  pub answers : (r : Request) (w : World) → Asked r → At w → (send r w).0 ≡ (send_seen r (view w)).0
  pub worlds :
      (r : Request) (w : World) → Asked r → At w → view (send r w).1 ≡ (send_seen r (view w)).1
  pub stays : (r : Request) (w : World) → Asked r → At w → At (send r w).1

module _ (E : Environment) (Asked : Request → Type 0) (T : Twins Asked) where
  open E use {FspError}

  abbrev pub First : Environment
  First = answered_by E T.World T.send

  abbrev pub Second : Environment
  Second = answered_by E T.Seen T.send_seen

  abbrev pub view_mount : Mounted First → Mounted Second
  view_mount s = record { world = T.view s.world; mount_state = s.mount_state }

  abbrev pub AtMount : Mounted First → Type 0
  AtMount s = T.At s.world

  abbrev pub view_context : RpcFileContext First → RpcFileContext Second
  view_context c = record {
    path = c.path;
    kind = c.kind;
    dir_buffer = c.dir_buffer;
    delete_pending = c.delete_pending;
  }

  abbrev pub view_open : Opened First → Opened Second
  view_open o = record { mounted = view_mount o.mounted; context = view_context o.context }

  abbrev pub AtOpen : Text → Opened First → Type 0
  AtOpen path o = T.At o.mounted.world × (o.context.path ≡ path)

  abbrev pub MatchesMount :
      {A : Type 0} → Run (Mounted First) FspError A → Run (Mounted Second) FspError A → Type 0
  MatchesMount m n = Matches view_mount AtMount m n

  abbrev pub MatchesOpen :
      {A : Type 0} → Text → Run (Opened First) FspError A → Run (Opened Second) FspError A → Type 0
  MatchesOpen path m n = Matches view_open (AtOpen path) m n

  pub call-Matches : (r : Request) → Asked r → MatchesMount (call First r) (call Second r)
  unfolding call
  call-Matches r asked = record {
    same = λ s h. ground (arith, T.answers r s.world asked h, T.worlds r s.world asked h);
    seen = λ s h. ground (arith, T.answers r s.world asked h, T.worlds r s.world asked h);
  }

  pub call-Keeps : (r : Request) → Asked r → Keeps AtMount (call First r)
  unfolding call
  call-Keeps r asked s h = subst T.At (ground arith) (T.stays r s.world asked h)

  send_request-Matches :
      (r : Request) → Asked r → MatchesMount (send_request First r) (send_request Second r)
  unfolding send_request
  send_request-Matches r asked = record {
    same = λ s h. ground (arith, T.answers r s.world asked h, T.worlds r s.world asked h);
    seen = λ s h. ground (arith, T.answers r s.world asked h, T.worlds r s.world asked h);
  }

  send_request-Keeps : (r : Request) → Asked r → Keeps AtMount (send_request First r)
  unfolding send_request
  send_request-Keeps r asked s h = subst T.At (ground arith) (T.stays r s.world asked h)

  pub expect_attr-Matches :
      (t : Text) (r : Response) → MatchesMount (expect_attr First t r) (expect_attr Second t r)
  expect_attr-Matches t r = record { same = λ s h. ground arith; seen = λ s h. ground arith }

  pub expect_attr-Keeps : (t : Text) (r : Response) → Keeps AtMount (expect_attr First t r)
  expect_attr-Keeps t r s h = subst T.At (ground arith) h

  pub fetch_attr-Matches :
      (path : Text)
      → Asked (Request.stat path)
      → MatchesMount (fetch_attr First path) (fetch_attr Second path)
  unfolding fetch_attr
  fetch_attr-Matches path asked =
      >>=-Matches view_mount AtMount _ _ _ _ (send_request-Matches _ asked)
        (send_request-Keeps _ asked) (λ r. expect_attr-Matches _ r)

  pub fetch_attr-Keeps :
      (path : Text) → Asked (Request.stat path) → Keeps AtMount (fetch_attr First path)
  unfolding fetch_attr
  fetch_attr-Keeps path asked =
      >>=-Keeps AtMount _ _ (send_request-Keeps _ asked) (λ r. expect_attr-Keeps _ r)

  pub fetch_dir_entries-Matches :
      (path : Text)
      → Asked (Request.read_dir path)
      → MatchesMount (fetch_dir_entries First path) (fetch_dir_entries Second path)
  unfolding fetch_dir_entries
  fetch_dir_entries-Matches path asked =
      >>=-Matches view_mount AtMount _ _ _ _ (send_request-Matches _ asked)
        (send_request-Keeps _ asked)
        (λ r. record { same = λ s h. ground arith; seen = λ s h. ground arith })

  expect_entries-Keeps : (r : Response) → Keeps AtMount (expect_entries First r)
  expect_entries-Keeps r s h = subst T.At (ground arith) h

  pub fetch_dir_entries-Keeps :
      (path : Text) → Asked (Request.read_dir path) → Keeps AtMount (fetch_dir_entries First path)
  unfolding fetch_dir_entries
  fetch_dir_entries-Keeps path asked =
      >>=-Keeps AtMount _ _ (send_request-Keeps _ asked) (λ r. expect_entries-Keeps r)

  -- A run about the path of an open file.
  pub on_path-Matches :
      {A : Type 0} (path : Text) (m : Text → Run (Mounted First) FspError A)
      (n : Text → Run (Mounted Second) FspError A)
      → MatchesMount (m path) (n path)
      → MatchesOpen path (on_path First m) (on_path Second n)
  on_path-Matches path m n h = record {
    same = λ o p. ground (arith, h.same o.mounted p.0);
    seen = λ o p. ground (arith, h.seen o.mounted p.0);
  }

  pub on_path-Keeps :
      {A : Type 0} (path : Text) (m : Text → Run (Mounted First) FspError A)
      → Keeps AtMount (m path)
      → Keeps (AtOpen path) (on_path First m)
  on_path-Keeps path m k o (h, p) = (rw p (k o.mounted h), p)
