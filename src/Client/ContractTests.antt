-- ===== src/Client/ContractTests.antt =====
-- Attributes, sizes, the volume and requests in order, with a server over a disk in memory, and the
-- theorems at these inputs.
use netfilum.Prelude.{ℕ, ◌≡◌, ◌≢◌, refl, arith, true, false, none, [], ◌∷◌, length, Option}
use netfilum.Prelude.Texts.{codes}
use netfilum.Prelude.Results.{Result, ok, err}
use netfilum.Protocol.{file, VolumeInfoData, Request}
use netfilum.Protocol.Errors.{IoError}
use netfilum.Paths.{join, path_starts_with}
use netfilum.Rpc.{seal, encrypt}
use netfilum.Rpc.Toy.{toy, toy-IsCrypto}
use netfilum.Server.Path.{normalize_relative_path}
use netfilum.Server.Fs.{Metadata}
use netfilum.Server.Fs.Memory.{
  Disk, find, slot_at, content, unlink, open_file, seek, write_all, update, truncate, metadata_of,
  new_slot, remove,
}
use netfilum.Server.Fs.Memory.Model.{memory, memory_view}
use netfilum.Server.Fs.Memory.Laws.{memory-IsFileSystem}
use netfilum.Server.Sample.{disk, server, below}
use netfilum.Server.Codecs.{removals, removals-IsCodec, answers, answers-IsCodec}
use netfilum.Server.Attributes.{
  attr_for_path, current_access_time, current_modified_time, filesystem_capacity, set_readonly,
}
use netfilum.Server.Times.{file_time_to_filetime}
use netfilum.Client.Times.{wire_time_from_windows}
use netfilum.Server.Resolve.{resolve_existing}
use netfilum.Server.Files as Files
use netfilum.Server.Files.{write_file, write_at, stat_path, set_len_at, remove_file}
use netfilum.Server.Dispatch.{dispatch}
use netfilum.Client.Attributes.{
  FileInfo, fill_file_info, invalid_file_attributes, readonly_update_from_attributes,
}
use netfilum.Client.RpcClient.{RpcClient}
use netfilum.Client.Context.{RpcFsContext, call, send_request, fetch_attr}
use netfilum.Client.Session.{Exchange, session, dispatched, idle, session-dispatched, Fits}
use netfilum.Client.Operations.{
  write, write_payload, set_file_size, set_basic_info, get_volume_info, constrain,
}
use netfilum.Client.Operations.Info.{
  HasMark, set_basic_info-HasMark, IsVolume, get_volume_info-IsVolume,
}
use netfilum.Client.Operations.Sizes.{IsRegular, set_file_size-eq-file_size}
use netfilum.Client.Operations.Sizes.Lengths.{write-SameLengths}
use netfilum.Client.Sample.{winfsp, mounted, opened}

abbrev value_of {ℓ} : {A : Type ℓ} → A → Result IoError A → A
value_of d (ok a) = a
value_of d (err e) = d

abbrev no_info : FileInfo
no_info = fill_file_info (record {
  kind = file;
  size = 0;
  allocated_size = 0;
  created = none;
  accessed = none;
  modified = none;
  changed = none;
  readonly = false;
  mode = none;
})

-- The file `b` of five bytes is cut to three.
abbrev cut : FileInfo
cut = value_of no_info (set_file_size mounted 3 false opened).0

cut_lem : (set_file_size mounted 3 false opened).0 ≡ ok cut
unfolding set_file_size call dispatch Files.set_len set_len_at resolve_existing
    normalize_relative_path join path_starts_with find slot_at open_file truncate content update
    attr_for_path
cut_lem = refl

b_found : (resolve_existing memory server (codes "b") disk).0 ≡ ok (below (codes "b"))
unfolding resolve_existing normalize_relative_path join path_starts_with find slot_at
b_found = refl

abbrev metadata_or : Metadata → Result IoError Metadata → Metadata
metadata_or d (ok m) = m
metadata_or d (err e) = d

abbrev b_metadata : Disk → Metadata
b_metadata s = metadata_or (metadata_of (new_slot [] false)) (memory.metadata (below (codes "b")) s)

disk-IsRegular : IsRegular winfsp memory memory_view memory-IsFileSystem server (codes "b") disk
unfolding resolve_existing normalize_relative_path join path_starts_with find slot_at
disk-IsRegular = (below (codes "b"), b_metadata disk, refl, refl, refl)

set_file_size-IsRegular :
    IsRegular winfsp memory memory_view memory-IsFileSystem server
      (codes "b")
      (set_file_size mounted 3 false opened).1.mounted.world
unfolding set_file_size call dispatch Files.set_len set_len_at resolve_existing
    normalize_relative_path join path_starts_with find slot_at open_file truncate content update
    attr_for_path
set_file_size-IsRegular = (
  below (codes "b"),
  b_metadata (set_file_size mounted 3 false opened).1.mounted.world,
  refl,
  refl,
  refl,
)

set_file_size-eq-file_size_example : cut.file_size ≡ 3
set_file_size-eq-file_size_example =
    set_file_size-eq-file_size winfsp memory memory_view memory-IsFileSystem server 3 opened cut
      cut_lem set_file_size-IsRegular

-- Six bytes at offset 3 of the five: two of them fit.
abbrev written : ℕ × Option FileInfo
written = value_of (0, none) (write mounted (codes "abcdef") 3 false true opened).0

written_lem : (write mounted (codes "abcdef") 3 false true opened).0 ≡ ok written
unfolding write write_payload call fetch_attr send_request constrain dispatch stat_path write_file
    write_at resolve_existing normalize_relative_path join path_starts_with find slot_at open_file
    seek write_all content update attr_for_path
written_lem = refl

two_written : written.0 ≡ 2
unfolding write write_payload call fetch_attr send_request constrain dispatch stat_path write_file
    write_at resolve_existing normalize_relative_path join path_starts_with find slot_at open_file
    seek write_all content update attr_for_path
two_written = refl

write-SameLengths_example :
    length (content 1 (write mounted (codes "abcdef") 3 false true opened).1.mounted.world)
    ≡ length (content 1 disk)
write-SameLengths_example =
    write-SameLengths winfsp memory memory_view memory-IsFileSystem server (codes "abcdef") 3 opened
      written disk-IsRegular written_lem 1

-- The file `b` becomes read-only: 0x21 is the mark and the one of a file.
abbrev locked : FileInfo
locked = value_of no_info (set_basic_info mounted 0x21 0 0 0 0 opened).0

locked_lem : (set_basic_info mounted 0x21 0 0 0 0 opened).0 ≡ ok locked
unfolding set_basic_info call dispatch Files.set_basic_info set_readonly resolve_existing
    normalize_relative_path join path_starts_with find slot_at update attr_for_path
    readonly_update_from_attributes current_access_time file_time_to_filetime current_modified_time
    wire_time_from_windows
locked_lem = refl

other_attributes : 0x21 ≢ invalid_file_attributes
other_attributes h = absurd (omega arith)

set_basic_info-HasMark_example :
    HasMark winfsp memory memory_view memory-IsFileSystem server 0x21 locked opened
      (set_basic_info mounted 0x21 0 0 0 0 opened).1
set_basic_info-HasMark_example =
    set_basic_info-HasMark winfsp memory memory_view memory-IsFileSystem server 0x21 0 0 0 0 opened
      locked other_attributes locked_lem

abbrev fs : RpcFsContext mounted
fs = record { security_descriptor = []; volume_label = codes "disk" }

abbrev volume : VolumeInfoData
volume =
    value_of (record { total_size = 0; free_size = 0; label = [] })
      (get_volume_info mounted fs opened.mounted).0

volume_lem : (get_volume_info mounted fs opened.mounted).0 ≡ ok volume
unfolding get_volume_info call dispatch filesystem_capacity
volume_lem = refl

get_volume_info-IsVolume_example : IsVolume winfsp memory server fs volume
get_volume_info-IsVolume_example =
    get_volume_info-IsVolume winfsp memory server fs opened.mounted
      (record { f_bsize = 512; f_frsize = 4096; f_blocks = 100; f_bavail = 60 }) volume refl
      (omega arith) volume_lem

-- The file `b` is removed.
abbrev removal_exchange : Exchange
removal_exchange = record {
  request = Request.remove_file (codes "b");
  nonce = codes "123456789012";
  answered_nonce = codes "abcdefghijkl";
}

-- The file `a` is removed.
abbrev next_exchange : Exchange
next_exchange = record removal_exchange { request = Request.remove_file (codes "a") }

abbrev client : RpcClient
client = record { addr = codes "127.0.0.1:5001"; timeout = 5; cipher = [] }

session-Fits : Fits toy memory server removals answers (removal_exchange ∷ next_exchange ∷ []) disk
unfolding seal encrypt dispatch remove_file resolve_existing normalize_relative_path join
    path_starts_with find slot_at remove unlink
session-Fits = (refl, refl, (_, refl), (_, refl), (refl, refl, (_, refl), (_, refl), tt))

session-dispatched_example :
    session toy memory server removals answers client
      (removal_exchange ∷ next_exchange ∷ [])
      (idle toy memory server disk)
    ≡ (
      (dispatched toy memory server (removal_exchange ∷ next_exchange ∷ []) disk).0,
      idle toy memory server
          (dispatched toy memory server (removal_exchange ∷ next_exchange ∷ []) disk).1,
    )
session-dispatched_example =
    session-dispatched toy memory server removals answers toy-IsCrypto removals-IsCodec
      answers-IsCodec client refl (removal_exchange ∷ next_exchange ∷ []) disk session-Fits
