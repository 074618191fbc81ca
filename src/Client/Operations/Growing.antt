-- ===== src/Client/Operations/Growing.antt =====
-- Each operation of crates/netfilum-client/src/mount.rs lets the state of the mount grow.
use netfilum.Prelude.{
  ℕ, length, ◌%◌, ◌^◌, ◌≡◌, refl, ◌∙◌, ap, arith, inl, inr, Bool, true, false, Option, none, some,
  List, [], ◌∷◌,
}
use netfilum.Prelude.Texts.{Text, Bytes, codes}
use netfilum.Prelude.Results.{ok, Run, Result-cases, pure, ◌>>=◌}
use netfilum.Protocol.{Request, FileAttr, DirEntry}
use netfilum.Client.Context.{
  Environment, RpcFsContext, Mounted, call, fetch_attr, fetch_dir_entries,
}
use netfilum.Client.Operations as Operations
use netfilum.Client.Operations.{
  write_special_dir_entry, write_dir_entry, Opened, FileSecurity, write_payload, write_entries,
  should_delete, removal, fill_buffer, acquired, on_buffer, created_kind, constrain, on_path,
}
use netfilum.Client.Times.{wire_time_from_windows}
use netfilum.Client.Attributes.{fill_file_info, readonly_update_from_attributes}
use netfilum.Client.Path.{nt_path_to_relative}
use netfilum.Client.Operations.Disconnects.{
  Grows, Growing, GrowingOpen, Grows-refl, unchanged, same_as, call-mount_state, call-Growing,
  fetch_attr-Growing, fetch_dir_entries-Growing, >>=-Growing, >>=-GrowingOpen,
}

module _ (E : Environment) (fs : RpcFsContext E) where
  -- A run that only touches the directory buffer.
  abbrev IsBuffered : {A : Type 0} → Run (Opened E) E.FspError A → Type 0
  IsBuffered m = (o : Opened E) → (m o).1.mounted ≡ o.mounted

  >>=-IsBuffered :
      {A B : Type 0} (m : Run (Opened E) E.FspError A) (f : A → Run (Opened E) E.FspError B)
      → IsBuffered m
      → ((a : A) → IsBuffered (f a))
      → IsBuffered (m >>= f)
  >>=-IsBuffered m f g h o = elim (Result-cases (m o).0) [
    | inl (a, e) ↦ rw e (h a (m o).1 ∙ g o)
    | inr (x, e) ↦ rw e (g o)
  ]

  write_entries-IsBuffered : (es : List DirEntry) → IsBuffered (write_entries E es)
  unfolding write_entries
  write_entries-IsBuffered [] o = refl
  write_entries-IsBuffered (e ∷ es) o =
      >>=-IsBuffered (on_buffer E (write_dir_entry E e)) (λ u. write_entries E es) (λ o. refl)
        (λ u. write_entries-IsBuffered es) o

  fill_buffer-IsBuffered :
      (a : FileAttr) (es : List DirEntry) (marker : Option Text) (b : Option E.DirBuffer)
      → IsBuffered (fill_buffer E a es marker b)
  fill_buffer-IsBuffered a es marker none o = refl
  fill_buffer-IsBuffered a es (some name) (some b) o = refl
  fill_buffer-IsBuffered a es none (some b) o =
      let dots = λ (name : Text). on_buffer E (write_special_dir_entry E name a) in
      >>=-IsBuffered (dots (codes ".")) (λ u. dots (codes "..") >>= λ u. write_entries E es)
        (λ o. refl)
        (λ u.
          >>=-IsBuffered (dots (codes "..")) (λ u. write_entries E es) (λ o. refl)
            (λ u. write_entries-IsBuffered es))
        (record o { context = record o.context { dir_buffer = b } })

  write_payload-Grows :
      (offset : ℕ) (to_eof : Bool) (p : Option Bytes) (o : Opened E)
      → Grows o.mounted.mount_state (write_payload E offset to_eof p o).1.mounted.mount_state
  unfolding write_payload
  write_payload-Grows offset to_eof none o = Grows-refl o.mounted.mount_state
  write_payload-Grows offset to_eof (some p) o =
      unchanged (
        ground (arith, call-mount_state E (Request.write o.context.path offset p to_eof) o.mounted))

  pub get_volume_info-mount_state :
      (s : Mounted E) → (Operations.get_volume_info E fs s).1.mount_state ≡ s.mount_state
  unfolding Operations.get_volume_info
  get_volume_info-mount_state s = ground (arith, call-mount_state E Request.get_volume_info s)

  pub read-mount_state :
      (buffer : Bytes) (offset : ℕ) (o : Opened E)
      → (Operations.read E buffer offset o).1.mounted.mount_state ≡ o.mounted.mount_state
  unfolding Operations.read
  read-mount_state buffer offset o = ground (
    arith,
    call-mount_state E (Request.read o.context.path offset (length buffer % 2 ^ 32)) o.mounted,
  )

  abbrev filled : Option Text → FileAttr → List DirEntry → Run (Opened E) E.FspError Unit
  filled marker a es o = fill_buffer E a es marker (acquired E es marker o) o

  abbrev answered : Option Text → Run (Opened E) E.FspError Bytes
  answered marker o = (ok (E.read_entries marker o.context.dir_buffer), o)

  listed :
      (marker : Option Text) (a : FileAttr) (es : List DirEntry)
      → GrowingOpen E (filled marker a es)
  listed marker a es o =
      unchanged
        (ap (λ m. m.mount_state) (fill_buffer-IsBuffered a es marker (acquired E es marker o) o))

  pub get_security-Growing :
      (name : Text) (target : Option Bytes) (reparse : Option FileSecurity)
      → Growing E (Operations.get_security_by_name E fs name target reparse)
  unfolding Operations.get_security_by_name
  get_security-Growing name target (some r) s = Grows-refl s.mount_state
  get_security-Growing name target none s =
      same_as (ground arith) (fetch_attr-Growing E (nt_path_to_relative name) s)

  pub open_path-Growing : (name : Text) → Growing E (Operations.open_path E fs name)
  unfolding Operations.open_path
  open_path-Growing name =
      >>=-Growing E _ _ (fetch_attr-Growing E _) (λ a s. Grows-refl s.mount_state)

  pub create-Growing :
      (name : Text) (options attributes size : ℕ)
      → Growing E (Operations.create E fs name options attributes size)
  unfolding Operations.create
  create-Growing name options attributes size s = unchanged (
      ground (
        arith,
        call-mount_state E
            (Request.create (nt_path_to_relative name) (created_kind options) attributes size) s,
      ))

  pub flush_volume-Growing : Growing E (Operations.flush_volume E)
  unfolding Operations.flush_volume
  flush_volume-Growing = >>=-Growing E _ _ (call-Growing E _) (λ a s. Grows-refl s.mount_state)

  pub flush_file-Growing : GrowingOpen E (Operations.flush_file E)
  unfolding Operations.flush_file
  flush_file-Growing =
      >>=-GrowingOpen E (on_path E (λ path. call E (Request.flush (some path))))
        (λ r. on_path E (fetch_attr E) >>= λ a. pure (fill_file_info a))
        (λ o. call-Growing E _ o.mounted)
        (λ r.
          >>=-GrowingOpen E (on_path E (fetch_attr E)) (λ a. pure (fill_file_info a))
            (λ o. fetch_attr-Growing E o.context.path o.mounted)
            (λ a o. Grows-refl o.mounted.mount_state))

  pub get_file_info-Growing : GrowingOpen E (Operations.get_file_info E)
  unfolding Operations.get_file_info
  get_file_info-Growing =
      >>=-GrowingOpen E _ _ (λ o. fetch_attr-Growing E o.context.path o.mounted)
        (λ a o. Grows-refl o.mounted.mount_state)

  pub rename-Growing :
      (name : Text) (replace : Bool) → GrowingOpen E (Operations.rename E name replace)
  unfolding Operations.rename
  rename-Growing name replace =
      >>=-GrowingOpen E _ _ (λ o. call-Growing E _ o.mounted)
        (λ a o. Grows-refl o.mounted.mount_state)

  pub set_delete-Growing : (delete : Bool) → GrowingOpen E (Operations.set_delete E delete)
  unfolding Operations.set_delete
  set_delete-Growing true =
      >>=-GrowingOpen E _ _ (λ o. call-Growing E _ o.mounted)
        (λ a o. Grows-refl o.mounted.mount_state)
  set_delete-Growing false = λ o. Grows-refl o.mounted.mount_state

  pub set_basic_info-Growing :
      (attributes created accessed written changed : ℕ)
      → GrowingOpen E (Operations.set_basic_info E attributes created accessed written changed)
  unfolding Operations.set_basic_info
  set_basic_info-Growing attributes created accessed written changed o = unchanged (
      ground (
        arith,
        call-mount_state E
            (Request.set_basic_info o.context.path (record {
              readonly = readonly_update_from_attributes attributes;
              creation_time = wire_time_from_windows created;
              last_access_time = wire_time_from_windows accessed;
              last_write_time = wire_time_from_windows written;
              change_time = wire_time_from_windows changed;
            }))
            o.mounted,
      ))

  pub set_file_size-Growing :
      (size : ℕ) (allocation : Bool) → GrowingOpen E (Operations.set_file_size E size allocation)
  unfolding Operations.set_file_size
  set_file_size-Growing size allocation o = unchanged (
      ground (arith, call-mount_state E (Request.set_len o.context.path size allocation) o.mounted))

  pub write-Growing :
      (buffer : Bytes) (offset : ℕ) (to_eof constrained : Bool)
      → GrowingOpen E (Operations.write E buffer offset to_eof constrained)
  unfolding Operations.write
  write-Growing buffer offset to_eof false = write_payload-Grows offset to_eof (some buffer)
  write-Growing buffer offset to_eof true =
      >>=-GrowingOpen E (on_path E (fetch_attr E))
        (λ a. write_payload E offset to_eof (constrain a.size offset buffer))
        (λ o. fetch_attr-Growing E o.context.path o.mounted)
        (λ a. write_payload-Grows offset to_eof (constrain a.size offset buffer))

  pub read_directory-Growing :
      (marker : Option Text) → GrowingOpen E (Operations.read_directory E marker)
  unfolding Operations.read_directory
  read_directory-Growing marker =
      >>=-GrowingOpen E (on_path E (fetch_attr E))
        (λ a. on_path E (fetch_dir_entries E) >>= λ es. filled marker a es >>= λ u. answered marker)
        (λ o. fetch_attr-Growing E o.context.path o.mounted)
        (λ a.
          >>=-GrowingOpen E (on_path E (fetch_dir_entries E))
            (λ es. filled marker a es >>= λ u. answered marker)
            (λ o. fetch_dir_entries-Growing E o.context.path o.mounted)
            (λ es.
              >>=-GrowingOpen E (filled marker a es) (λ u. answered marker) (listed marker a es)
                (λ u o. Grows-refl o.mounted.mount_state)))

  pub cleanup-Grows :
      (flags : ℕ) (o : Opened E)
      → Grows o.mounted.mount_state (Operations.cleanup E flags o).mounted.mount_state
  unfolding Operations.cleanup
  cleanup-Grows flags o =
      unchanged
        (ground (arith, call-mount_state E (removal o.context.kind o.context.path) o.mounted))
