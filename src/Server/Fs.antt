-- ===== src/Server/Fs.antt =====
-- The operating system under crates/netfilum-server/src/server.rs: `std::fs`, the crate `filetime`
-- and `libc::statvfs`, as the parameter `Fs` of the server's definitions. An operation that can
-- change the disk takes and returns the state; a query reads it.
pub mod View
pub mod Memory
use netfilum.Prelude.{ℕ, Bool, true, false, Option, List, ◌&&◌}
use netfilum.Prelude.Int.{ℤ}
use netfilum.Prelude.Texts.{Text, Bytes}
use netfilum.Prelude.Results.{Result, ok, err, Run}
use netfilum.Protocol.Errors.{IoError, IoResult}
use netfilum.Paths.{PathBuf}

-- A time: whole seconds from the epoch, rounded down, and nanoseconds above them.
pub record SystemTime : Type 0 where
  pub secs : ℤ
  pub nanos : ℕ

-- `fs::Metadata`. A time is `none` where the call that reads it fails.
pub record Metadata : Type 0 where
  pub is_dir : Bool
  pub is_file : Bool
  pub len : ℕ
  pub blocks : ℕ
  pub created : Option SystemTime
  pub accessed : Option SystemTime
  pub modified : Option SystemTime
  pub ctime : ℤ
  pub ctime_nsec : ℕ
  pub mode : ℕ

pub record OpenOptions : Type 0 where
  pub read : Bool
  pub write : Bool
  pub create_new : Bool

pub data SeekFrom : Type 0 where
  start : ℕ → SeekFrom
  from_end : ℤ → SeekFrom

pub record Statvfs : Type 0 where
  pub f_bsize : ℕ
  pub f_frsize : ℕ
  pub f_blocks : ℕ
  pub f_bavail : ℕ

-- A `File` holds its position: what moves it returns the file anew.
pub record Fs : Type 1 where
  pub State : Type 0
  pub File : Type 0
  pub FileTime : Type 0
  pub canonicalize : PathBuf → State → IoResult PathBuf
  pub metadata : PathBuf → State → IoResult Metadata
  pub read_dir : PathBuf → State → IoResult (List (IoResult Text))
  pub to_string_lossy : Text → Text
  pub open_file : OpenOptions → PathBuf → Run State IoError File
  pub seek : SeekFrom → File → Run State IoError File
  pub read : ℕ → File → Run State IoError Bytes
  pub write_all : Bytes → File → Run State IoError File
  pub flush : File → Run State IoError Unit
  pub sync_all : File → Run State IoError Unit
  pub set_len : ℕ → File → Run State IoError Unit
  pub create_dir : PathBuf → Run State IoError Unit
  pub create_dir_all : PathBuf → Run State IoError Unit
  pub remove_file : PathBuf → Run State IoError Unit
  pub remove_dir : PathBuf → Run State IoError Unit
  pub remove_dir_all : PathBuf → Run State IoError Unit
  pub rename : PathBuf → PathBuf → Run State IoError Unit
  pub set_permissions : PathBuf → ℕ → Run State IoError Unit
  pub set_file_times : PathBuf → FileTime → FileTime → Run State IoError Unit
  pub from_unix_time : ℤ → ℕ → FileTime
  pub from_system_time : SystemTime → FileTime
  pub now : State → SystemTime
  pub statvfs : PathBuf → State → IoResult Statvfs

-- `Path::exists`, `Path::is_dir` and `Path::is_file` are false where `metadata` fails.
abbrev pub succeeds : IoResult Metadata → Bool
succeeds (ok m) = true
succeeds (err e) = false

abbrev pub is_dir_result : IoResult Metadata → Bool
is_dir_result (ok m) = m.is_dir
is_dir_result (err e) = false

abbrev pub is_file_result : IoResult Metadata → Bool
is_file_result (ok m) = m.is_file
is_file_result (err e) = false
