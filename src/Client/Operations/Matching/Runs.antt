-- ===== src/Client/Operations/Matching/Runs.antt =====
-- The operations of crates/netfilum-client/src/mount.rs over two servers that answer alike.
use netfilum.Prelude.{
  ℕ, ◌%◌, ◌^◌, ◌≡◌, refl, arith, Bool, true, false, Option, none, some, [], length, ◌++◌,
  append-nil,
}
use netfilum.Prelude.Texts.{Text, Bytes}
use netfilum.Prelude.Results.{Run, ◌>>=◌, pure}
use netfilum.Protocol.{Request}
use netfilum.Client.Times.{wire_time_from_windows}
use netfilum.Client.Attributes.{readonly_update_from_attributes, fill_file_info}
use netfilum.Client.Context.{Environment, Mounted, call, expect_attr}
use netfilum.Client.Operations as Operations
use netfilum.Client.Operations.{
  Opened, FileSecurity, on_path, on_mount, write_payload, write_entries, write_dir_entry, on_buffer,
  acquired, fill_buffer, write_special_dir_entry, created_kind, constrain,
}
use netfilum.Client.Operations.Requests.{constrain-prefix}
use netfilum.Client.Operations.Matching.{Keeps, >>=-Matches, pure-Matches}
use netfilum.Client.Operations.Matching.Twins.{
  Twins, First, Second, view_open, AtMount, AtOpen, MatchesMount, MatchesOpen, call-Matches,
  call-Keeps, expect_attr-Matches, expect_attr-Keeps, fetch_attr-Matches, fetch_attr-Keeps,
  on_path-Matches, on_path-Keeps,
}

module _ (E : Environment) (Asks : Request → Type 0) (T : Twins Asks) (path : Text) where
  abbrev A : Environment
  A = First E Asks T

  abbrev B : Environment
  B = Second E Asks T

  -- A request about the path, and what follows it.
  pub then-Matches :
      {X Y : Type 0} (m : Text → Run (Mounted A) E.FspError X)
      (n : Text → Run (Mounted B) E.FspError X) (f : X → Run (Opened A) E.FspError Y)
      (g : X → Run (Opened B) E.FspError Y)
      → MatchesMount E Asks T (m path) (n path)
      → Keeps (AtMount E Asks T) (m path)
      → ((x : X) → MatchesOpen E Asks T path (f x) (g x))
      → MatchesOpen E Asks T path (on_path A m >>= f) (on_path B n >>= g)
  then-Matches m n f g h k l =
      >>=-Matches (view_open E Asks T) (AtOpen E Asks T path) (on_path A m) (on_path B n) f g
        (on_path-Matches E Asks T path m n h) (on_path-Keeps E Asks T path m k) l

  pub returned : {X : Type 0} (x : X) → MatchesOpen E Asks T path (pure x) (pure x)
  returned x = pure-Matches (view_open E Asks T) (AtOpen E Asks T path) x

  pub get_file_info-Matches :
      Asks (Request.stat path)
      → MatchesOpen E Asks T path (Operations.get_file_info A) (Operations.get_file_info B)
  unfolding Operations.get_file_info
  get_file_info-Matches asked =
      then-Matches _ _ _ _ (fetch_attr-Matches E Asks T path asked)
        (fetch_attr-Keeps E Asks T path asked) (λ a. returned (fill_file_info a))

  pub flush_file-Matches :
      Asks (Request.flush (some path))
      → Asks (Request.stat path)
      → MatchesOpen E Asks T path (Operations.flush_file A) (Operations.flush_file B)
  unfolding Operations.flush_file
  flush_file-Matches asked then_asked =
      then-Matches (λ p. call A (Request.flush (some p))) (λ p. call B (Request.flush (some p))) _ _
        (call-Matches E Asks T _ asked) (call-Keeps E Asks T _ asked)
        λ r.
          then-Matches _ _ _ _ (fetch_attr-Matches E Asks T path then_asked)
            (fetch_attr-Keeps E Asks T path then_asked) (λ a. returned (fill_file_info a))

  -- A request about the open file that is answered by its attributes.
  expected-Matches :
      (r : Text → Request) (t : Text)
      → Asks (r path)
      → MatchesOpen E Asks T path
          (on_path A (λ p. call A (r p)) >>= λ a.
            on_mount A (expect_attr A t a) >>= λ i. pure (fill_file_info i))
          (on_path B (λ p. call B (r p)) >>= λ a.
            on_mount B (expect_attr B t a) >>= λ i. pure (fill_file_info i))
  expected-Matches r t asked =
      then-Matches (λ p. call A (r p)) (λ p. call B (r p)) _ _ (call-Matches E Asks T _ asked)
        (call-Keeps E Asks T _ asked)
        λ a.
          then-Matches (λ p. expect_attr A t a) (λ p. expect_attr B t a) _ _
            (expect_attr-Matches E Asks T t a) (expect_attr-Keeps E Asks T t a)
            (λ i. returned (fill_file_info i))

  pub set_file_size-Matches :
      (size : ℕ) (allocation : Bool)
      → Asks (Request.set_len path size allocation)
      → MatchesOpen E Asks T path
          (Operations.set_file_size A size allocation)
          (Operations.set_file_size B size allocation)
  unfolding Operations.set_file_size
  set_file_size-Matches size allocation asked =
      expected-Matches (λ p. Request.set_len p size allocation) _ asked

  pub set_basic_info-Matches :
      (attributes created accessed modified changed : ℕ)
      → Asks (
          Request.set_basic_info path (record {
            readonly = readonly_update_from_attributes attributes;
            creation_time = wire_time_from_windows created;
            last_access_time = wire_time_from_windows accessed;
            last_write_time = wire_time_from_windows modified;
            change_time = wire_time_from_windows changed;
          }))
      → MatchesOpen E Asks T path
          (Operations.set_basic_info A attributes created accessed modified changed)
          (Operations.set_basic_info B attributes created accessed modified changed)
  unfolding Operations.set_basic_info
  set_basic_info-Matches attributes created accessed modified changed asked =
      expected-Matches (λ p. Request.set_basic_info p _) _ asked

  pub read-Matches :
      (buffer : Bytes) (offset : ℕ)
      → Asks (Request.read path offset (length buffer % 2 ^ 32))
      → MatchesOpen E Asks T path
          (Operations.read A buffer offset)
          (Operations.read B buffer offset)
  unfolding Operations.read
  read-Matches buffer offset asked =
      then-Matches (λ p. call A (Request.read p offset (length buffer % 2 ^ 32)))
        (λ p. call B (Request.read p offset (length buffer % 2 ^ 32))) _ _
        (call-Matches E Asks T _ asked) (call-Keeps E Asks T _ asked)
        λ a. record { same = λ o h. ground arith; seen = λ o h. ground arith }

  write_payload-Matches :
      (offset : ℕ) (to_eof : Bool) (p : Option Bytes)
      → ((d : Bytes) → p ≡ some d → Asks (Request.write path offset d to_eof))
      → MatchesOpen E Asks T path
          (write_payload A offset to_eof p)
          (write_payload B offset to_eof p)
  unfolding write_payload
  write_payload-Matches offset to_eof none asked = returned (0, none)
  write_payload-Matches offset to_eof (some p) asked =
      then-Matches (λ q. call A (Request.write q offset p to_eof))
        (λ q. call B (Request.write q offset p to_eof)) _ _ (call-Matches E Asks T _ (asked p refl))
        (call-Keeps E Asks T _ (asked p refl))
        λ a. record { same = λ o h. ground arith; seen = λ o h. ground arith }

  pub write-Matches :
      (buffer : Bytes) (offset : ℕ) (to_eof constrained : Bool)
      → Asks (Request.stat path)
      → ((d rest : Bytes) → buffer ≡ d ++ rest → Asks (Request.write path offset d to_eof))
      → MatchesOpen E Asks T path
          (Operations.write A buffer offset to_eof constrained)
          (Operations.write B buffer offset to_eof constrained)
  unfolding Operations.write
  write-Matches buffer offset to_eof false asked then_asked =
      write_payload-Matches offset to_eof (some buffer)
        (λ d e. then_asked d [] (ground (arith, append-nil buffer)))
  write-Matches buffer offset to_eof true asked then_asked =
      then-Matches _ _ _ _ (fetch_attr-Matches E Asks T path asked)
        (fetch_attr-Keeps E Asks T path asked)
        λ a.
          write_payload-Matches offset to_eof (constrain a.size offset buffer)
            λ d e. let (rest, i) = constrain-prefix a.size offset buffer d e in then_asked d rest i
