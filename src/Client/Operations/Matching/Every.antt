-- ===== src/Client/Operations/Matching/Every.antt =====
-- Every operation of crates/netfilum-client/src/mount.rs over two servers that answer alike.
use netfilum.Prelude.{ℕ, ◌≡◌, refl, arith, inl, inr, Bool, true, false, Option, none, some}
use netfilum.Prelude.Texts.{Text, Bytes}
use netfilum.Prelude.Results.{Run, Result-cases, ◌>>=◌, pure}
use netfilum.Protocol.{Request}
use netfilum.Client.Path.{nt_path_to_relative}
use netfilum.Client.Context.{Environment, RpcFsContext}
use netfilum.Client.Operations as Operations
use netfilum.Client.Operations.{
  Opened, FileSecurity, on_path, on_mount, write_payload, write_entries, write_dir_entry, on_buffer,
  acquired, fill_buffer, write_special_dir_entry, created_kind, constrain, removal, should_delete,
}
use netfilum.Client.Operations.Performed.{Operation}
use netfilum.Client.Operations.Requests.{Asked}
use netfilum.Client.Operations.Replies.{Reply, replying}
use netfilum.Client.Operations.Matching.Runs.{
  get_file_info-Matches, flush_file-Matches, set_file_size-Matches, set_basic_info-Matches,
  read-Matches, write-Matches,
}
use netfilum.Client.Operations.Matching.Listings.{read_directory-Matches}
use netfilum.Client.Operations.Matching.Twins.{
  Twins, First, Second, view_open, MatchesOpen, call-Matches, fetch_attr-Matches,
}

-- Two runs that agree from one state.
abbrev pub Agree : {W V X A : Type 0} → (W → V) → Run W X A → Run V X A → W → Type 0
Agree view m n s = ((m s).0 ≡ (n (view s)).0) × (view (m s).1 ≡ (n (view s)).1)

module _ {W V X : Type 0} (view : W → V) where
  Agree-wrap :
      {A B : Type 0} (m : Run W X A) (n : Run V X A) (f : A → B) (s : W)
      → Agree view m n s
      → Agree view (m >>= λ a. pure (f a)) (n >>= λ a. pure (f a)) s
  Agree-wrap m n f s h = elim (Result-cases (m s).0) [
    | inl (a, e) ↦ ground (arith, h)
    | inr (x, e) ↦ ground (arith, h)
  ]

module _ (E : Environment) (Asks : Request → Type 0) (T : Twins Asks) where
  abbrev A : Environment
  A = First E Asks T

  abbrev B : Environment
  B = Second E Asks T

  abbrev pub view_fs : RpcFsContext A → RpcFsContext B
  view_fs fs = record {
    security_descriptor = fs.security_descriptor;
    volume_label = fs.volume_label;
  }

  abbrev AgreeOpen :
      {X : Type 0} → Run (Opened A) E.FspError X → Run (Opened B) E.FspError X → Opened A → Type 0
  AgreeOpen m n o = Agree (view_open E Asks T) m n o

  wrapped :
      {X : Type 0} (m : Run (Opened A) E.FspError X) (n : Run (Opened B) E.FspError X)
      (f : X → Reply) (o : Opened A)
      → T.At o.mounted.world
      → MatchesOpen E Asks T o.context.path m n
      → AgreeOpen (m >>= λ a. pure (f a)) (n >>= λ a. pure (f a)) o
  wrapped m n f o h k =
      Agree-wrap (view_open E Asks T) m n f o (k.same o (h, refl), k.seen o (h, refl))

  module _ (fs : RpcFsContext A) (o : Opened A) (at : T.At o.mounted.world) where
    open_path-Agree :
        (name : Text)
        → Asks (Request.stat (nt_path_to_relative name))
        → AgreeOpen
            (replying A fs (Operation.open_path name))
            (replying B (view_fs fs) (Operation.open_path name))
            o
    unfolding Operations.open_path
    open_path-Agree name asked =
        let m = fetch_attr-Matches E Asks T (nt_path_to_relative name) asked in
        ground (arith, m.same o.mounted at, m.seen o.mounted at)

    create-Agree :
        (name : Text) (options attributes size : ℕ)
        → Asks (Request.create (nt_path_to_relative name) (created_kind options) attributes size)
        → AgreeOpen
            (replying A fs (Operation.create name options attributes size))
            (replying B (view_fs fs) (Operation.create name options attributes size))
            o
    unfolding Operations.create
    create-Agree name options attributes size asked =
        let m = call-Matches E Asks T _ asked in
        ground (arith, m.same o.mounted at, m.seen o.mounted at)

    get_security-Agree :
        (name : Text) (target : Option Bytes) (reparse : Option FileSecurity)
        → Asks (Request.stat (nt_path_to_relative name))
        → AgreeOpen
            (replying A fs (Operation.get_security_by_name name target reparse))
            (replying B (view_fs fs) (Operation.get_security_by_name name target reparse))
            o
    unfolding Operations.get_security_by_name
    get_security-Agree name target (some r) asked = (refl, refl)
    get_security-Agree name target none asked =
        let m = fetch_attr-Matches E Asks T (nt_path_to_relative name) asked in
        ground (arith, m.same o.mounted at, m.seen o.mounted at)

    get_volume_info-Agree :
        Asks Request.get_volume_info
        → AgreeOpen
            (replying A fs Operation.get_volume_info)
            (replying B (view_fs fs) Operation.get_volume_info)
            o
    unfolding Operations.get_volume_info
    get_volume_info-Agree asked =
        let m = call-Matches E Asks T _ asked in
        ground (arith, m.same o.mounted at, m.seen o.mounted at)

    flush_volume-Agree :
        Asks (Request.flush none)
        → AgreeOpen
            (replying A fs Operation.flush_volume)
            (replying B (view_fs fs) Operation.flush_volume)
            o
    unfolding Operations.flush_volume
    flush_volume-Agree asked =
        let m = call-Matches E Asks T _ asked in
        ground (arith, m.same o.mounted at, m.seen o.mounted at)

    rename-Agree :
        (name : Text) (replace : Bool)
        → Asks (Request.rename o.context.path (nt_path_to_relative name) replace)
        → AgreeOpen
            (replying A fs (Operation.rename name replace))
            (replying B (view_fs fs) (Operation.rename name replace))
            o
    unfolding Operations.rename
    rename-Agree name replace asked =
        let m = call-Matches E Asks T _ asked in
        ground (arith, m.same o.mounted at, m.seen o.mounted at)

    set_delete-Agree :
        (delete : Bool)
        → Asks (Request.can_delete o.context.path o.context.kind)
        → AgreeOpen
            (replying A fs (Operation.set_delete delete))
            (replying B (view_fs fs) (Operation.set_delete delete))
            o
    unfolding Operations.set_delete
    set_delete-Agree false asked = (refl, refl)
    set_delete-Agree true asked =
        let m = call-Matches E Asks T _ asked in
        ground (arith, m.same o.mounted at, m.seen o.mounted at)

    cleanup-Agree :
        (flags : ℕ)
        → Asks (removal o.context.kind o.context.path)
        → AgreeOpen
            (replying A fs (Operation.cleanup flags))
            (replying B (view_fs fs) (Operation.cleanup flags))
            o
    unfolding Operations.cleanup should_delete
    cleanup-Agree flags asked =
        let m = call-Matches E Asks T _ asked in (refl, ground (arith, m.seen o.mounted at))

    -- Over two servers of which the second answers to the requests of an operation as the first one
    -- does, the operation returns the same, and what it leaves is related: the servers' worlds, the
    -- state of the mount and the open file.
    pub replying-Agree :
        (op : Operation)
        → ((r : Request) → Asked o.context.path o.context.kind op r → Asks r)
        → AgreeOpen (replying A fs op) (replying B (view_fs fs) op) o
    replying-Agree (Operation.get_security_by_name name target reparse) k =
        get_security-Agree name target reparse (k _ refl)
    replying-Agree (Operation.open_path name) k = open_path-Agree name (k _ refl)
    replying-Agree (Operation.create name options attributes size) k =
        create-Agree name options attributes size (k _ refl)
    replying-Agree Operation.get_volume_info k = get_volume_info-Agree (k _ refl)
    replying-Agree (Operation.cleanup flags) k = cleanup-Agree flags (k _ refl)
    replying-Agree Operation.flush_file k =
        wrapped _ _ _ o at
          (flush_file-Matches E Asks T o.context.path (k _ (inl refl)) (k _ (inr refl)))
    replying-Agree Operation.flush_volume k = flush_volume-Agree (k _ refl)
    replying-Agree Operation.get_file_info k =
        wrapped _ _ _ o at (get_file_info-Matches E Asks T o.context.path (k _ refl))
    replying-Agree Operation.set_security k = unfold Operations.set_security in (refl, refl)
    replying-Agree (Operation.get_security target) k =
        unfold Operations.get_security in (refl, refl)
    replying-Agree (Operation.read_directory marker) k =
        wrapped _ _ _ o at
          (read_directory-Matches E Asks T o.context.path marker (k _ (inl refl)) (k _ (inr refl)))
    replying-Agree (Operation.rename name replace) k = rename-Agree name replace (k _ refl)
    replying-Agree (Operation.set_basic_info attributes created accessed modified changed) k =
        wrapped _ _ _ o at (
          set_basic_info-Matches E Asks T o.context.path attributes created accessed modified
            changed (k _ refl))
    replying-Agree (Operation.set_delete delete) k = set_delete-Agree delete (k _ refl)
    replying-Agree (Operation.set_file_size size allocation) k =
        wrapped _ _ _ o at
          (set_file_size-Matches E Asks T o.context.path size allocation (k _ refl))
    replying-Agree (Operation.read buffer offset) k =
        wrapped _ _ _ o at (read-Matches E Asks T o.context.path buffer offset (k _ refl))
    replying-Agree (Operation.write buffer offset to_eof constrained) k = wrapped _ _ _ o at (
        write-Matches E Asks T o.context.path buffer offset to_eof constrained (k _ (inl refl))
          (λ d rest h. k _ (inr (d, rest, h, refl))))
