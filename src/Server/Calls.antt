-- ===== src/Server/Calls.antt =====
-- The calls by which crates/netfilum-server/src/server.rs changes the disk or opens a file, with their
-- paths: an operating system that keeps a list of them.
pub mod Follows
pub mod Confined
pub mod Requests
pub mod Dispatch
use netfilum.Prelude.{ℕ, List, [], ◌∷◌, if◌then◌else◌}
use netfilum.Prelude.Results.{Result, Run}
use netfilum.Protocol.Errors.{IoError}
use netfilum.Paths.{PathBuf}
use netfilum.Server.Fs.{Fs, OpenOptions}

-- A call with its path, or its two paths.
pub data Call : Type 0 where
  opens creates removes changes : PathBuf → Call
  renames : PathBuf → PathBuf → Call

abbrev pub Noted : Fs → Type 0
Noted F = F.State × List Call

-- The call is noted, whether it succeeds or fails.
abbrev pub noting : (F : Fs) {A : Type 0} → Call → Run F.State IoError A → Run (Noted F) IoError A
noting F c m (s, l) = let (r, t) = m s in (r, (t, c ∷ l))

-- A call on an open file.
abbrev pub unnoted : (F : Fs) {A : Type 0} → Run F.State IoError A → Run (Noted F) IoError A
unnoted F m (s, l) = let (r, t) = m s in (r, (t, l))

abbrev pub opening : OpenOptions → PathBuf → Call
opening o p = if o.create_new then creates p else opens p

-- The same operating system, with the list of calls, the last one first, beside its state.
abbrev pub logged : Fs → Fs
logged F = record {
  State = Noted F;
  File = F.File;
  FileTime = F.FileTime;
  canonicalize = λ p n. F.canonicalize p n.0;
  metadata = λ p n. F.metadata p n.0;
  read_dir = λ p n. F.read_dir p n.0;
  to_string_lossy = F.to_string_lossy;
  open_file = λ o p. noting F (opening o p) (F.open_file o p);
  seek = λ from f. unnoted F (F.seek from f);
  read = λ n f. unnoted F (F.read n f);
  write_all = λ d f. unnoted F (F.write_all d f);
  flush = λ f. unnoted F (F.flush f);
  sync_all = λ f. unnoted F (F.sync_all f);
  set_len = λ n f. unnoted F (F.set_len n f);
  create_dir = λ p. noting F (creates p) (F.create_dir p);
  create_dir_all = λ p. noting F (creates p) (F.create_dir_all p);
  remove_file = λ p. noting F (removes p) (F.remove_file p);
  remove_dir = λ p. noting F (removes p) (F.remove_dir p);
  remove_dir_all = λ p. noting F (removes p) (F.remove_dir_all p);
  rename = λ p q. noting F (renames p q) (F.rename p q);
  set_permissions = λ p mode. noting F (changes p) (F.set_permissions p mode);
  set_file_times = λ p a m. noting F (changes p) (F.set_file_times p a m);
  from_unix_time = F.from_unix_time;
  from_system_time = F.from_system_time;
  now = λ n. F.now n.0;
  statvfs = λ p n. F.statvfs p n.0;
}
