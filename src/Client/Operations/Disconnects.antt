-- ===== src/Client/Operations/Disconnects.antt =====
-- What the operations of crates/netfilum-client/src/mount.rs, all of them, do to the state of the
-- mount.
use netfilum.Prelude.{◌≡◌, arith, inl, inr, true, some}
use netfilum.Prelude.Texts.{Text}
use netfilum.Prelude.Results.{Run, Result-cases, ◌>>=◌}
use netfilum.Protocol.{Request, Response}
use netfilum.Protocol.Errors.{IoError}
use netfilum.Client.MountState.{MountState, note_error, report_disconnect}
use netfilum.Client.Context.{
  Environment, Mounted, call, send_request, fetch_attr, fetch_dir_entries, expect_attr,
}
use netfilum.Client.Operations.{Opened}

-- `stop` stays set, and the first message stays.
pub record Grows (m n : MountState) : Type 0 where
  pub stopped : m.stop ≡ true → n.stop ≡ true
  pub kept : (text : Text) → m.disconnect_message ≡ some text → n.disconnect_message ≡ some text

pub Grows-refl : (m : MountState) → Grows m m
Grows-refl m = record { stopped = λ h. h; kept = λ text h. h }

-- The state may also stay what it was.
pub unchanged : {m n : MountState} → n ≡ m → Grows m n
unchanged h = record { stopped = λ k. ground arith; kept = λ text k. ground arith }

pub same_as : {m n p : MountState} → p ≡ n → Grows m n → Grows m p
same_as h g = record {
  stopped = λ k. ground (arith, g.stopped k);
  kept = λ text k. ground (arith, g.kept text k);
}

Grows-trans : {m n p : MountState} → Grows m n → Grows n p → Grows m p
Grows-trans g h = record {
  stopped = λ k. h.stopped (g.stopped k);
  kept = λ text k. h.kept text (g.kept text k);
}

note_error-Grows : (e : IoError) (m : MountState) → Grows m (note_error e m)
unfolding note_error report_disconnect
note_error-Grows e m = record { stopped = λ h. ground arith; kept = λ text h. ground arith }

module _ (E : Environment) where
  open E use {FspError}

  -- A run over a mount, or over an open file, that lets the state of the mount grow.
  abbrev pub Growing : {A : Type 0} → Run (Mounted E) FspError A → Type 0
  Growing m = (s : Mounted E) → Grows s.mount_state (m s).1.mount_state

  abbrev pub GrowingOpen : {A : Type 0} → Run (Opened E) FspError A → Type 0
  GrowingOpen m = (o : Opened E) → Grows o.mounted.mount_state (m o).1.mounted.mount_state

  pub >>=-Growing :
      {A B : Type 0} (m : Run (Mounted E) FspError A) (f : A → Run (Mounted E) FspError B)
      → Growing m
      → ((a : A) → Growing (f a))
      → Growing (m >>= f)
  >>=-Growing m f g h s = elim (Result-cases (m s).0) [
    | inl (a, e) ↦ rw e (Grows-trans (g s) (h a (m s).1))
    | inr (x, e) ↦ rw e (g s)
  ]

  pub >>=-GrowingOpen :
      {A B : Type 0} (m : Run (Opened E) FspError A) (f : A → Run (Opened E) FspError B)
      → GrowingOpen m
      → ((a : A) → GrowingOpen (f a))
      → GrowingOpen (m >>= f)
  >>=-GrowingOpen m f g h s = elim (Result-cases (m s).0) [
    | inl (a, e) ↦ rw e (Grows-trans (g s) (h a (m s).1))
    | inr (x, e) ↦ rw e (g s)
  ]

  pub call-mount_state : (r : Request) (s : Mounted E) → (call E r s).1.mount_state ≡ s.mount_state
  unfolding call
  call-mount_state r s = ground arith

  pub call-Growing : (r : Request) → Growing (call E r)
  call-Growing r s = unchanged (call-mount_state r s)

  send_request-Growing : (r : Request) → Growing (send_request E r)
  unfolding send_request
  send_request-Growing r s = elim (Result-cases (E.send r s.world).0) [
    | inl (a, e) ↦ rw (e, send_request) (Grows-refl s.mount_state)
    | inr (x, e) ↦ rw (e, send_request) (note_error-Grows x s.mount_state)
  ]

  pub expect_attr-Growing : (t : Text) (r : Response) → Growing (expect_attr E t r)
  expect_attr-Growing t (Response.attr a) s = Grows-refl s.mount_state
  expect_attr-Growing t _ s = Grows-refl s.mount_state

  pub fetch_attr-Growing : (path : Text) → Growing (fetch_attr E path)
  unfolding fetch_attr
  fetch_attr-Growing path =
      >>=-Growing _ _ (send_request-Growing (Request.stat path)) λ r. expect_attr-Growing _ r

  pub fetch_dir_entries-Growing : (path : Text) → Growing (fetch_dir_entries E path)
  unfolding fetch_dir_entries
  fetch_dir_entries-Growing path s =
      elim (Result-cases (send_request E (Request.read_dir path) s).0) [
        | inl (r, e) ↦ ground (arith, send_request-Growing (Request.read_dir path) s)
        | inr (x, e) ↦ ground (arith, send_request-Growing (Request.read_dir path) s)
      ]
