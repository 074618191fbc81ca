-- ===== src/Client/Operations/Reported/Runs.antt =====
-- The errors of each operation of crates/netfilum-client/src/mount.rs that sends a request.
use netfilum.Prelude.{
  ℕ, ◌%◌, ◌^◌, ◌≡◌, refl, ◌∙◌, arith, Bool, true, false, Option, none, some, [], length, ◌++◌,
  append-nil,
}
use netfilum.Prelude.Texts.{Text, Bytes}
use netfilum.Prelude.Results.{err, ◌>>=◌, pure}
use netfilum.Protocol.{Request}
use netfilum.Server.Fs.{Fs}
use netfilum.Server.Resolve.{RpcServer}
use netfilum.Server.Dispatch.Typed.{Shape, answer_shape, shape_of-payload, shape_of-write_result}
use netfilum.Client.Times.{wire_time_from_windows}
use netfilum.Client.Attributes.{readonly_update_from_attributes, fill_file_info}
use netfilum.Client.Path.{nt_path_to_relative}
use netfilum.Client.Context.{Environment, RpcFsContext, call, expect_attr, fetch_attr}
use netfilum.Client.Served.{served}
use netfilum.Client.Operations as Operations
use netfilum.Client.Operations.{
  Opened, FileSecurity, on_path, on_mount, write_payload, write_entries, write_dir_entry, on_buffer,
  acquired, fill_buffer, write_special_dir_entry, created_kind, constrain,
}
use netfilum.Client.Operations.Requests.{constrain-prefix}
use netfilum.Client.Operations.Reported.{
  Reported, Reports, >>=-Reports, ask-then, call-Asks, call-Reports, expect_attr-Reports,
  fetch_attr-Reports,
}
use netfilum.Client.Operations.Reported.Opens.{
  Opens, pure-Opens, >>=-Opens, on_path-Opens, ask-then-Opens,
}

module _ (E : Environment) (F : Fs) (server : RpcServer) (Asked : Request → Type 0) where
  abbrev S : Environment
  S = served E F server

  module _ (fs : RpcFsContext S) where
    pub get_security-Reports :
        (name : Text) (target : Option Bytes) (reparse : Option FileSecurity)
        → Asked (Request.stat (nt_path_to_relative name))
        → Reports E F server Asked (Operations.get_security_by_name S fs name target reparse)
    unfolding Operations.get_security_by_name
    get_security-Reports name target (some r) asked = λ s e k. absurd (ground arith)
    get_security-Reports name target none asked =
        >>=-Reports E F server Asked _ _ (fetch_attr-Reports E F server Asked _ asked)
          (λ a s e k. absurd (ground arith))

    pub open_path-Reports :
        (name : Text)
        → Asked (Request.stat (nt_path_to_relative name))
        → Reports E F server Asked (Operations.open_path S fs name)
    unfolding Operations.open_path
    open_path-Reports name asked =
        >>=-Reports E F server Asked _ _ (fetch_attr-Reports E F server Asked _ asked)
          (λ a s e k. absurd (ground arith))

    pub create-Reports :
        (name : Text) (options attributes size : ℕ)
        → Asked (Request.create (nt_path_to_relative name) (created_kind options) attributes size)
        → Reports E F server Asked (Operations.create S fs name options attributes size)
    unfolding Operations.create
    create-Reports name options attributes size asked =
        ask-then E F server Asked _ _ _ (call-Asks E F server _) asked λ a h.
          >>=-Reports E F server Asked _ _ (expect_attr-Reports E F server Asked _ a h)
            (λ a s e k. absurd (ground arith))

    pub get_volume_info-Reports :
        Asked Request.get_volume_info → Reports E F server Asked (Operations.get_volume_info S fs)
    unfolding Operations.get_volume_info
    get_volume_info-Reports asked =
        ask-then E F server Asked _ _ _ (call-Asks E F server _) asked
          (λ a h s e k. absurd (ground arith))

  pub flush_volume-Reports :
      Asked (Request.flush none) → Reports E F server Asked (Operations.flush_volume S)
  unfolding Operations.flush_volume
  flush_volume-Reports asked =
      >>=-Reports E F server Asked _ _ (call-Reports E F server Asked _ asked)
        (λ a s e k. absurd (ground arith))

  module _ (path : Text) where
    abbrev pub attr_read :
        Asked (Request.stat path) → Opens E F server path Asked (on_path S (fetch_attr S))
    attr_read asked =
        on_path-Opens E F server path Asked _ (fetch_attr-Reports E F server Asked path asked)

    pub get_file_info-Opens :
        Asked (Request.stat path) → Opens E F server path Asked (Operations.get_file_info S)
    unfolding Operations.get_file_info
    get_file_info-Opens asked =
        >>=-Opens E F server path Asked _ _ (attr_read asked)
          (λ a. pure-Opens E F server path Asked (fill_file_info a))

    pub flush_file-Opens :
        Asked (Request.flush (some path))
        → Asked (Request.stat path)
        → Opens E F server path Asked (Operations.flush_file S)
    unfolding Operations.flush_file
    flush_file-Opens asked then_asked =
        >>=-Opens E F server path Asked (on_path S (λ path. call S (Request.flush (some path)))) _
          (on_path-Opens E F server path Asked _ (call-Reports E F server Asked _ asked))
          (λ r.
            >>=-Opens E F server path Asked _ _ (attr_read then_asked)
              (λ a. pure-Opens E F server path Asked (fill_file_info a)))

    pub rename-reports :
        (name : Text) (replace : Bool)
        → Asked (Request.rename path (nt_path_to_relative name) replace)
        → (o : Opened S) → o.context.path ≡ path
        → (e : E.FspError) → (Operations.rename S name replace o).0 ≡ err e
        → Reported E F server Asked e
    unfolding Operations.rename
    rename-reports name replace asked o h e k =
        call-Reports E F server Asked _ asked o.mounted e (ground arith)

    pub set_delete-reports :
        (delete : Bool) (o : Opened S)
        → Asked (Request.can_delete path o.context.kind)
        → o.context.path ≡ path
        → (e : E.FspError) → (Operations.set_delete S delete o).0 ≡ err e
        → Reported E F server Asked e
    unfolding Operations.set_delete
    set_delete-reports true o asked h e k =
        call-Reports E F server Asked _ asked o.mounted e (ground arith)
    set_delete-reports false o asked h e k = absurd (ground arith)

    -- A request about the open file that is answered by its attributes.
    expected-Opens :
        (r : Text → Request) (t : Text)
        → answer_shape (r path) ≡ Shape.attr
        → Asked (r path)
        → Opens E F server path Asked (
            on_path S (λ p. call S (r p)) >>= λ a.
            on_mount S (expect_attr S t a) >>= λ i. pure (fill_file_info i))
    expected-Opens r t h asked =
        ask-then-Opens E F server path Asked (r path) _ _ (call-Asks E F server _) asked λ a k.
          >>=-Opens E F server path Asked _ _
            (on_path-Opens E F server path Asked (λ p. expect_attr S t a)
              (expect_attr-Reports E F server Asked t a (k ∙ h)))
            (λ i. pure-Opens E F server path Asked (fill_file_info i))

    pub set_basic_info-Opens :
        (attributes created accessed written changed : ℕ)
        → Asked (
            Request.set_basic_info path (record {
              readonly = readonly_update_from_attributes attributes;
              creation_time = wire_time_from_windows created;
              last_access_time = wire_time_from_windows accessed;
              last_write_time = wire_time_from_windows written;
              change_time = wire_time_from_windows changed;
            }))
        → Opens E F server path Asked
            (Operations.set_basic_info S attributes created accessed written changed)
    unfolding Operations.set_basic_info
    set_basic_info-Opens attributes created accessed written changed asked =
        expected-Opens (λ p. Request.set_basic_info p _) _ refl asked

    pub set_file_size-Opens :
        (size : ℕ) (allocation : Bool)
        → Asked (Request.set_len path size allocation)
        → Opens E F server path Asked (Operations.set_file_size S size allocation)
    unfolding Operations.set_file_size
    set_file_size-Opens size allocation asked =
        expected-Opens (λ p. Request.set_len p size allocation) _ refl asked

    pub read-Opens :
        (buffer : Bytes) (offset : ℕ)
        → Asked (Request.read path offset (length buffer % 2 ^ 32))
        → Opens E F server path Asked (Operations.read S buffer offset)
    unfolding Operations.read
    read-Opens buffer offset asked =
        ask-then-Opens E F server path Asked _
          (λ p. call S (Request.read p offset (length buffer % 2 ^ 32))) _ (call-Asks E F server _)
          asked
          λ a h.
            let (b, e) = shape_of-payload a h in
            rw e (pure-Opens E F server path Asked (Operations.copy_read S b buffer))

    pub write_payload-Opens :
        (offset : ℕ) (to_eof : Bool) (p : Option Bytes)
        → ((d : Bytes) → p ≡ some d → Asked (Request.write path offset d to_eof))
        → Opens E F server path Asked (write_payload S offset to_eof p)
    unfolding write_payload
    write_payload-Opens offset to_eof none asked = pure-Opens E F server path Asked (0, none)
    write_payload-Opens offset to_eof (some p) asked =
        ask-then-Opens E F server path Asked _ (λ q. call S (Request.write q offset p to_eof)) _
          (call-Asks E F server _) (asked p refl)
          λ a h.
            let (n, i, e) = shape_of-write_result a h in
            rw e (pure-Opens E F server path Asked (n, some (fill_file_info i)))

    pub write-Opens :
        (buffer : Bytes) (offset : ℕ) (to_eof constrained : Bool)
        → Asked (Request.stat path)
        → ((d rest : Bytes) → buffer ≡ d ++ rest → Asked (Request.write path offset d to_eof))
        → Opens E F server path Asked (Operations.write S buffer offset to_eof constrained)
    unfolding Operations.write
    write-Opens buffer offset to_eof false asked then_asked =
        write_payload-Opens offset to_eof (some buffer)
          (λ d e. then_asked d [] (ground (arith, append-nil buffer)))
    write-Opens buffer offset to_eof true asked then_asked =
        >>=-Opens E F server path Asked _ _ (attr_read asked) λ a.
          write_payload-Opens offset to_eof (constrain a.size offset buffer)
            λ d e. let (rest, i) = constrain-prefix a.size offset buffer d e in then_asked d rest i
