-- ===== src/Client/Operations/Performed.antt =====
-- All operations of `FileSystemContext` that crates/netfilum-client/src/mount.rs implements, and what
-- any of them does to the state of the mount.
use netfilum.Prelude.{ℕ, Bool, Option}
use netfilum.Prelude.Texts.{Text, Bytes}
use netfilum.Prelude.Results.{Run}
use netfilum.Client.Context.{Environment, RpcFsContext, Mounted}
use netfilum.Client.Operations as Operations
use netfilum.Client.Operations.{
  Opened, FileSecurity, write_payload, write_entries, should_delete, removal, fill_buffer, acquired,
  on_buffer, created_kind, constrain, on_path,
}
use netfilum.Client.Operations.Disconnects.{Grows, Grows-refl, unchanged}
use netfilum.Client.Operations.Growing.{
  get_security-Growing, open_path-Growing, create-Growing, flush_volume-Growing, flush_file-Growing,
  get_file_info-Growing, rename-Growing, set_delete-Growing, set_basic_info-Growing,
  set_file_size-Growing, write-Growing, read_directory-Growing, cleanup-Grows,
  get_volume_info-mount_state, read-mount_state,
}

pub data Operation : Type 0 where
  get_security_by_name : Text → Option Bytes → Option FileSecurity → Operation
  open_path : Text → Operation
  create : Text → (create_options file_attributes allocation_size : ℕ) → Operation
  get_volume_info : Operation
  cleanup : ℕ → Operation
  flush_file flush_volume get_file_info set_security : Operation
  get_security : Option Bytes → Operation
  read_directory : Option Text → Operation
  rename : Text → Bool → Operation
  set_basic_info : (file_attributes creation last_access last_write change : ℕ) → Operation
  set_delete : Bool → Operation
  set_file_size : ℕ → Bool → Operation
  read : Bytes → ℕ → Operation
  write : Bytes → ℕ → (write_to_eof constrained_io : Bool) → Operation

module _ (E : Environment) (fs : RpcFsContext E) where
  abbrev on_mount : {A : Type 0} → Run (Mounted E) E.FspError A → Opened E → Opened E
  on_mount m o = record o { mounted = (m o.mounted).1 }

  -- The state after an operation, whether it succeeds or fails.
  abbrev pub perform : Operation → Opened E → Opened E
  perform (get_security_by_name name target reparse) =
      on_mount (Operations.get_security_by_name E fs name target reparse)
  perform (open_path name) = on_mount (Operations.open_path E fs name)
  perform (create name options attributes size) =
      on_mount (Operations.create E fs name options attributes size)
  perform get_volume_info = on_mount (Operations.get_volume_info E fs)
  perform (cleanup flags) = Operations.cleanup E flags
  perform flush_file = λ o. (Operations.flush_file E o).1
  perform flush_volume = on_mount (Operations.flush_volume E)
  perform get_file_info = λ o. (Operations.get_file_info E o).1
  perform set_security = λ o. (Operations.set_security E o).1
  perform (get_security target) = λ o. (Operations.get_security E fs target o).1
  perform (read_directory marker) = λ o. (Operations.read_directory E marker o).1
  perform (rename name replace) = λ o. (Operations.rename E name replace o).1
  perform (set_basic_info attributes created accessed written changed) =
      λ o. (Operations.set_basic_info E attributes created accessed written changed o).1
  perform (set_delete delete) = λ o. (Operations.set_delete E delete o).1
  perform (set_file_size size allocation) = λ o. (Operations.set_file_size E size allocation o).1
  perform (read buffer offset) = λ o. (Operations.read E buffer offset o).1
  perform (write buffer offset to_eof constrained) =
      λ o. (Operations.write E buffer offset to_eof constrained o).1

  -- No operation, whether it succeeds or fails, takes `stop` back or replaces the message of a lost
  -- connection.
  pub perform-Grows :
      (op : Operation) (o : Opened E)
      → Grows o.mounted.mount_state (perform op o).mounted.mount_state
  perform-Grows (get_security_by_name name target reparse) o =
      get_security-Growing E fs name target reparse o.mounted
  perform-Grows (open_path name) o = open_path-Growing E fs name o.mounted
  perform-Grows (create name options attributes size) o =
      create-Growing E fs name options attributes size o.mounted
  perform-Grows get_volume_info o = unchanged (get_volume_info-mount_state E fs o.mounted)
  perform-Grows (cleanup flags) o = cleanup-Grows E fs flags o
  perform-Grows flush_file o = flush_file-Growing E fs o
  perform-Grows flush_volume o = flush_volume-Growing E fs o.mounted
  perform-Grows get_file_info o = get_file_info-Growing E fs o
  perform-Grows set_security o = unfold Operations.set_security in Grows-refl o.mounted.mount_state
  perform-Grows (get_security target) o =
      unfold Operations.get_security in Grows-refl o.mounted.mount_state
  perform-Grows (read_directory marker) o = read_directory-Growing E fs marker o
  perform-Grows (rename name replace) o = rename-Growing E fs name replace o
  perform-Grows (set_basic_info attributes created accessed written changed) o =
      set_basic_info-Growing E fs attributes created accessed written changed o
  perform-Grows (set_delete delete) o = set_delete-Growing E fs delete o
  perform-Grows (set_file_size size allocation) o = set_file_size-Growing E fs size allocation o
  perform-Grows (read buffer offset) o = unchanged (read-mount_state E fs buffer offset o)
  perform-Grows (write buffer offset to_eof constrained) o =
      write-Growing E fs buffer offset to_eof constrained o
