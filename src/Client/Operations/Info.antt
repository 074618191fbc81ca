-- ===== src/Client/Operations/Info.antt =====
-- What crates/netfilum-client/src/mount.rs reports of a file and of the volume, with the server of
-- crates/netfilum-server/src/server.rs behind it.
use Prim.Native.Nat.{bit_and}
use netfilum.Prelude.{
  not, ◌==◌, ℕ, ◌≤◌, ◌<◌, ◌^◌, ◌≡◌, ◌≢◌, ap, sym, ◌∙◌, arith, inl, inr, Bool, false, some,
}
use netfilum.Prelude.Results.{ok, Result-cases}
use netfilum.Protocol.{Request, Response, FileAttr, BasicInfoUpdate, VolumeInfoData}
use netfilum.Server.Fs.{Fs, Statvfs}
use netfilum.Server.Fs.View.{View, IsFileSystem}
use netfilum.Server.Times.{capacity}
use netfilum.Server.Attributes.{filesystem_capacity}
use netfilum.Server.Resolve.{RpcServer}
use netfilum.Server.Dispatch.{dispatch}
use netfilum.Server.Contract.Dispatch.{dispatch-Fulfils}
use netfilum.Client.Times.{wire_time_from_windows}
use netfilum.Client.Attributes.{
  FileInfo, fill_file_info, readonly_update_from_attributes, invalid_file_attributes,
  file_attributes_from_attr,
}
use netfilum.Client.Context.{Environment, RpcFsContext, Mounted, call}
use netfilum.Client.Served.{served}
use netfilum.Client.Operations.{Opened, set_basic_info, get_volume_info}

module _ (E : Environment) (F : Fs) (V : View F) (L : IsFileSystem F V) (server : RpcServer) where
  abbrev update : (file_attributes creation last_access last_write change : ℕ) → BasicInfoUpdate
  update file_attributes creation last_access last_write change = record {
    readonly = readonly_update_from_attributes file_attributes;
    creation_time = wire_time_from_windows creation;
    last_access_time = wire_time_from_windows last_access;
    last_write_time = wire_time_from_windows last_write;
    change_time = wire_time_from_windows change;
  }

  set_basic_info-eq_ok :
      (attributes created accessed written changed : ℕ) (o : Opened (served E F server))
      (info : FileInfo)
      → (set_basic_info (served E F server) attributes created accessed written changed o).0
        ≡ ok info
      → (a : FileAttr) × ((dispatch F server
            (Request.set_basic_info o.context.path
              (update attributes created accessed written changed))
            o.mounted.world).0
          ≡ ok (Response.attr a))
        × (info ≡ fill_file_info a)
  unfolding set_basic_info call
  set_basic_info-eq_ok attributes created accessed written changed o info h =
      let asked =
        (dispatch F server
          (Request.set_basic_info o.context.path
            (update attributes created accessed written changed))
          o.mounted.world).0 in
      elim (Result-cases asked) [
        | inr (x, e) ↦ absurd (ground arith)
        | inl (Response.attr a, e) ↦ (a, e, ground arith)
        | inl (_, e) ↦ absurd (ground arith)
      ]

  abbrev readonly_of : Response → Bool
  readonly_of (Response.attr a) = a.readonly
  readonly_of _ = false

  update-some :
      (attributes : ℕ)
      → attributes ≢ invalid_file_attributes
      → readonly_update_from_attributes attributes ≡ some (not (bit_and attributes 1 == 0))
  unfolding readonly_update_from_attributes
  update-some attributes ne = ground arith

  -- The read-only bit of the attributes that are reported.
  reported_bit :
      (attr : FileAttr) → not (bit_and (file_attributes_from_attr attr) 1 == 0) ≡ attr.readonly
  unfolding file_attributes_from_attr
  reported_bit attr = ground arith

  not-injective : (b c : Bool) → not b ≡ not c → b ≡ c
  not-injective b c h = ground arith

  -- The read-only bit of the request, 0x1, is the one that is reported, and no file's bytes change.
  abbrev pub HasMark :
      ℕ → FileInfo → Opened (served E F server) → Opened (served E F server) → Type 0
  HasMark attributes info o o' =
      (bit_and info.file_attributes 1 == 0 ≡ bit_and attributes 1 == 0)
      × ((i : ℕ) → V.content i o'.mounted.world ≡ V.content i o.mounted.world)

  -- Where the attributes of an open file are set, and are not the value that leaves them alone, the file
  -- is reported as read-only afterwards exactly if the request said so; every file keeps its bytes.
  pub set_basic_info-HasMark :
      (attributes created accessed written changed : ℕ) (o : Opened (served E F server))
      (info : FileInfo)
      → attributes ≢ invalid_file_attributes
      → (set_basic_info (served E F server) attributes created accessed written changed o).0
        ≡ ok info
      → HasMark attributes info o
          (set_basic_info (served E F server) attributes created accessed written changed o).1
  unfolding set_basic_info call fill_file_info
  set_basic_info-HasMark attributes created accessed written changed o info ne h =
      let request =
        Request.set_basic_info o.context.path
          (update attributes created accessed written changed) in
      let (a, answered, eq) =
        set_basic_info-eq_ok attributes created accessed written changed o info h in
      let t = (dispatch F server request o.mounted.world).1 in
      let (p, a', found, is, attr, marked, same, times) =
        dispatch-Fulfils F V L server request o.mounted.world t (Response.attr a) (ground arith) in
      let left : t
          ≡ (set_basic_info (served E F server) attributes created accessed written changed
              o).1.mounted.world =
        ground arith in
      let read_only = ap readonly_of is ∙ marked _ (update-some attributes ne) in
      (
        not-injective _ _
            (ap (λ x. not (bit_and x.file_attributes 1 == 0)) eq ∙ reported_bit a ∙ read_only),
        λ i. ap (V.content i) (sym left) ∙ same.1 i,
      )

module _ (E : Environment) (F : Fs) (server : RpcServer)
    (fs : RpcFsContext (served E F server)) where
  -- The free space is at most the whole, which fits 64 bits, and the label is the mount's own.
  abbrev pub IsVolume : VolumeInfoData → Type 0
  IsVolume info =
      (info.free_size ≤ info.total_size)
      × (info.total_size < 2 ^ 64)
      × (info.label ≡ fs.volume_label)

  capacity_bounds :
      (st : Statvfs)
      → st.f_bavail ≤ st.f_blocks
      → ((capacity st).1 ≤ (capacity st).0) × ((capacity st).0 < 2 ^ 64)
  unfolding capacity
  capacity_bounds st h = (grind arith, omega arith)

  -- Where the operating system reports no more free blocks than blocks, the volume's free space is at
  -- most its whole space, also where these numbers are too large for 64 bits, and the label is that of
  -- the mount and not the server's.
  pub get_volume_info-IsVolume :
      (m : Mounted (served E F server)) (st : Statvfs) (info : VolumeInfoData)
      → F.statvfs server.root_real m.world ≡ ok st
      → st.f_bavail ≤ st.f_blocks
      → (get_volume_info (served E F server) fs m).0 ≡ ok info
      → IsVolume info
  unfolding get_volume_info call dispatch filesystem_capacity
  get_volume_info-IsVolume m st info stat le h = ground (arith, capacity_bounds st le)
