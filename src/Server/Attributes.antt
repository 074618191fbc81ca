-- ===== src/Server/Attributes.antt =====
-- crates/netfilum-server/src/server.rs: `attr_for_path`, the current times, `set_readonly` and
-- `filesystem_capacity`, over the operating system `F`.
pub mod Laws
use Prim.Native.Nat.{bit_and, bit_or}
use netfilum.Prelude.{ℕ, ◌+◌, ◌-◌, ◌*◌, ◌%◌, ◌^◌, Bool, true, false, ◌||◌, Option, none, some}
use netfilum.Prelude.{List, [], ◌∷◌, ◌==◌, if◌then◌else◌}
use netfilum.Prelude.Texts.{Text, codes}
use netfilum.Prelude.Results.{
  Result, ok, err, Run, gets, lift, with_err, map_err, pure, ◌>>=◌, ◌>>◌,
}
use netfilum.Protocol.{EntryKind, file, directory, FileTimeValue, FileAttr, RpcError, RpcResult}
use netfilum.Protocol.Errors.{ErrorKind, IoError, IoResult, rpc_error_from}
use netfilum.Paths.{Component, normal, prefix, PathBuf}
use netfilum.Server.Fs.{Fs, SystemTime, Metadata, Statvfs}
use netfilum.Server.Times.{system_time_to_wire, file_time_to_filetime, capacity}

-- No write bit is set.
unfoldable pub is_readonly : ℕ → Bool
is_readonly mode = bit_and mode 0o222 == 0

-- The attributes of a file's metadata.
unfoldable pub attr_of_metadata : Metadata → FileAttr
unfolding is_readonly system_time_to_wire
attr_of_metadata m = record {
  kind = if m.is_dir then directory else file;
  size = m.len;
  allocated_size = m.blocks * 512 % 2 ^ 64;
  created = system_time_to_wire m.created;
  accessed = system_time_to_wire m.accessed;
  modified = system_time_to_wire m.modified;
  changed = some (record { secs = m.ctime; nanos = m.ctime_nsec % 2 ^ 32 });
  readonly = is_readonly m.mode;
  mode = some m.mode;
}

-- The mode that `set_readonly` sets: `mode & !0o222`, or `mode | 0o200`.
unfoldable pub readonly_mode : ℕ → Bool → ℕ
readonly_mode mode true = bit_and mode (2 ^ 32 - 1 - 0o222)
readonly_mode mode false = bit_or mode 0o200

abbrev contains_nul_text : Text → Bool
contains_nul_text [] = false
contains_nul_text (c ∷ t) = c == 0 || contains_nul_text t

-- `CString::new` refuses a path with a zero byte.
abbrev pub contains_nul : PathBuf → Bool
contains_nul [] = false
contains_nul (normal s ∷ p) = contains_nul_text s || contains_nul p
contains_nul (prefix s ∷ p) = contains_nul_text s || contains_nul p
contains_nul (_ ∷ p) = contains_nul p

module _ (F : Fs) where
  open F use {State, FileTime}

  -- `.map_err(RpcError::from)` on a call that may change the disk, and on a query.
  abbrev pub io : {A : Type 0} → Run State IoError A → Run State RpcError A
  io m = with_err rpc_error_from m

  abbrev pub ask : {A : Type 0} → (State → IoResult A) → Run State RpcError A
  ask q = gets (λ s. map_err rpc_error_from (q s))

  unfoldable pub attr_for_path : PathBuf → Run State RpcError FileAttr
  unfolding attr_of_metadata rpc_error_from
  attr_for_path path = do m ← ask (F.metadata path); pure (attr_of_metadata m)

  abbrev pub or_now : Option FileTime → Run State RpcError FileTime
  or_now (some t) s = (ok t, s)
  or_now none s = (ok (F.from_system_time (F.now s)), s)

  abbrev filetime_of_wire : Option FileTimeValue → Option FileTime
  filetime_of_wire none = none
  filetime_of_wire (some v) = file_time_to_filetime F v

  unfoldable pub current_access_time : PathBuf → Run State RpcError FileTime
  unfolding rpc_error_from
  current_access_time path = do
    m ← ask (F.metadata path)
    or_now (filetime_of_wire (system_time_to_wire m.accessed))

  unfoldable pub current_modified_time : PathBuf → Run State RpcError FileTime
  unfolding rpc_error_from
  current_modified_time path = do
    m ← ask (F.metadata path)
    or_now (filetime_of_wire (system_time_to_wire m.modified))

  unfoldable pub set_readonly : PathBuf → Bool → Run State IoError Unit
  unfolding readonly_mode
  set_readonly path readonly = do
    m ← gets (F.metadata path)
    F.set_permissions path (readonly_mode m.mode readonly)

  unfoldable pub filesystem_capacity : PathBuf → State → IoResult (ℕ × ℕ)
  unfolding capacity
  filesystem_capacity path s =
      if contains_nul path
      then err (record { kind = ErrorKind.invalid_input; message = codes "path contains NUL" })
      else elim (F.statvfs path s) [ ok stats ↦ ok (capacity stats) | err e ↦ err e ]
