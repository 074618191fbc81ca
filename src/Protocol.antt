-- ===== src/Protocol.antt =====
-- src/protocol.rs: the messages that the client and the server exchange, and the error codes.
-- A `u64`, `u32` or `u8` is a native number, an `i64` an integer, a `String` or `Vec<u8>` its bytes.
pub mod Errors
use netfilum.Prelude.{ℕ, Bool, Option, List}
use netfilum.Prelude.Int.{ℤ}
use netfilum.Prelude.Texts.{Text, Bytes}
use netfilum.Prelude.Results.{Result}

pub data EntryKind : Type 0 where
  file directory : EntryKind

pub record FileTimeValue : Type 0 where
  pub secs : ℤ
  pub nanos : ℕ

pub record FileAttr : Type 0 where
  pub kind : EntryKind
  pub size : ℕ
  pub allocated_size : ℕ
  pub created : Option FileTimeValue
  pub accessed : Option FileTimeValue
  pub modified : Option FileTimeValue
  pub changed : Option FileTimeValue
  pub readonly : Bool
  pub mode : Option ℕ

pub record DirEntry : Type 0 where
  pub name : Text
  pub attr : FileAttr

pub record BasicInfoUpdate : Type 0 where
  pub readonly : Option Bool
  pub creation_time : Option FileTimeValue
  pub last_access_time : Option FileTimeValue
  pub last_write_time : Option FileTimeValue
  pub change_time : Option FileTimeValue

pub record VolumeInfoData : Type 0 where
  pub total_size : ℕ
  pub free_size : ℕ
  pub label : Text

-- The fields stand in the order of the source.
pub data Request : Type 0 where
  stat : (path : Text) → Request
  open_path : (path : Text) → Request
  create : (path : Text) (kind : EntryKind) (file_attributes allocation_size : ℕ) → Request
  read_dir : (path : Text) → Request
  read : (path : Text) (offset len : ℕ) → Request
  write : (path : Text) (offset : ℕ) (payload : Bytes) (write_to_eof : Bool) → Request
  can_delete : (path : Text) (kind : EntryKind) → Request
  remove_file : (path : Text) → Request
  remove_dir : (path : Text) → Request
  rename : (path new_path : Text) (replace_if_exists : Bool) → Request
  set_len : (path : Text) (size : ℕ) (set_allocation_size : Bool) → Request
  flush : (path : Option Text) → Request
  set_basic_info : (path : Text) (update : BasicInfoUpdate) → Request
  get_volume_info : Request

pub data Response : Type 0 where
  attr : FileAttr → Response
  dir_entries : List DirEntry → Response
  payload : Bytes → Response
  write_result : (written : ℕ) (new_attr : FileAttr) → Response
  volume_info : VolumeInfoData → Response
  empty : Response

pub data ErrorCode : Type 0 where
  not_found already_exists permission_denied invalid_input not_directory is_directory : ErrorCode
  directory_not_empty unsupported unexpected : ErrorCode

pub record RpcError : Type 0 where
  pub code : ErrorCode
  pub message : Text

abbrev pub RpcResult : Type 0 → Type 0
RpcResult A = Result RpcError A
