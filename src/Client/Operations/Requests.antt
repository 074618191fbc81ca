-- ===== src/Client/Operations/Requests.antt =====
-- Which requests the operations of crates/netfilum-client/src/mount.rs make.
use netfilum.Prelude.{
  ℕ, ◌%◌, ◌^◌, ◌≡◌, ◌⊎◌, inl, inr, none, some, length, ◌++◌, ◌-◌, [], arith, leb, ltb, drop,
  take-append-drop, append-nil, Bool-cases,
}
use netfilum.Prelude.Texts.{Text, Bytes}
use netfilum.Protocol.{EntryKind, Request}
use netfilum.Client.Times.{wire_time_from_windows}
use netfilum.Client.Attributes.{readonly_update_from_attributes}
use netfilum.Client.Path.{nt_path_to_relative}
use netfilum.Client.Operations.{created_kind, removal, constrain}
use netfilum.Client.Operations.Performed.{Operation}

-- The requests that an operation may make; a write sends the start of its buffer. The path and the kind are those of the open file.
abbrev pub Asked : Text → EntryKind → Operation → Request → Type 0
Asked path kind (Operation.get_security_by_name name target reparse) r =
    r ≡ Request.stat (nt_path_to_relative name)
Asked path kind (Operation.open_path name) r = r ≡ Request.stat (nt_path_to_relative name)
Asked path kind (Operation.create name options attributes size) r =
    r ≡ Request.create (nt_path_to_relative name) (created_kind options) attributes size
Asked path kind Operation.get_volume_info r = r ≡ Request.get_volume_info
Asked path kind Operation.flush_file r = (r ≡ Request.flush (some path)) ⊎ (r ≡ Request.stat path)
Asked path kind Operation.flush_volume r = r ≡ Request.flush none
Asked path kind Operation.get_file_info r = r ≡ Request.stat path
Asked path kind (Operation.read_directory marker) r =
    (r ≡ Request.stat path) ⊎ (r ≡ Request.read_dir path)
Asked path kind (Operation.rename name replace) r =
    r ≡ Request.rename path (nt_path_to_relative name) replace
Asked path kind (Operation.set_basic_info attributes created accessed written changed) r =
    r
    ≡ Request.set_basic_info path (record {
      readonly = readonly_update_from_attributes attributes;
      creation_time = wire_time_from_windows created;
      last_access_time = wire_time_from_windows accessed;
      last_write_time = wire_time_from_windows written;
      change_time = wire_time_from_windows changed;
    })
Asked path kind (Operation.set_delete delete) r = r ≡ Request.can_delete path kind
Asked path kind (Operation.set_file_size size allocation) r =
    r ≡ Request.set_len path size allocation
Asked path kind (Operation.read buffer offset) r =
    r ≡ Request.read path offset (length buffer % 2 ^ 32)
Asked path kind (Operation.write buffer offset to_eof constrained) r =
    (r ≡ Request.stat path)
    ⊎ ((d : Bytes) × (rest : Bytes) × (buffer ≡ d ++ rest)
        × (r ≡ Request.write path offset d to_eof))
Asked path kind (Operation.cleanup flags) r = r ≡ removal kind path
Asked path kind _ r = ⊥

-- What a constrained write sends is the start of its buffer.
pub constrain-prefix :
    (size offset : ℕ) (buffer d : Bytes)
    → constrain size offset buffer ≡ some d
    → (rest : Bytes) × (buffer ≡ d ++ rest)
unfolding constrain
constrain-prefix size offset buffer d h = elim (Bool-cases (leb size offset)) [
  | inl e ↦ absurd (ground arith)
  | inr e ↦ elim (Bool-cases (ltb (size - offset) (length buffer))) [
    | inl f ↦ (drop (size - offset) buffer, ground (arith, take-append-drop (size - offset) buffer))
    | inr f ↦ ([], ground (arith, append-nil buffer))
  ]
]
