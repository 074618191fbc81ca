-- ===== src/Server/Fs/Memory/Model.antt =====
-- The disk in memory as an operating system for the server.
use netfilum.Prelude.{true, false, take, drop}
use netfilum.Prelude.Int.{pos}
use netfilum.Prelude.Results.{ok}
use netfilum.Server.Fs.{Fs, SystemTime}
use netfilum.Server.Fs.View.{View}
use netfilum.Server.Fs.Memory.{Disk, Handle, find, content, metadata_of, query}
use netfilum.Server.Fs.Memory.{children, unlink, unlink_below, create_slot, open_file, seek}
use netfilum.Server.Fs.Memory.{write_all, change, remove, move, forget, truncate, ensure_dir}

abbrev pub memory : Fs
memory = record {
  State = Disk;
  File = Handle;
  FileTime = SystemTime;
  canonicalize = query (λ e. e.real);
  metadata = query metadata_of;
  read_dir = λ p s. ok (children p s);
  to_string_lossy = λ t. t;
  open_file = open_file;
  seek = seek;
  read = λ n f s. (ok (take n (drop f.position (content f.number s))), s);
  write_all = write_all;
  flush = λ f s. (ok tt, s);
  sync_all = λ f s. (ok tt, s);
  set_len = truncate;
  create_dir = λ p s. forget (create_slot true p (find p s) s);
  create_dir_all = λ p s. ensure_dir p (find p s) s;
  remove_file = λ p. remove (unlink p) p;
  remove_dir = λ p. remove (unlink p) p;
  remove_dir_all = λ p. remove (unlink_below p) p;
  rename = move;
  set_permissions = λ p m. change (λ e. record e { mode = m }) p;
  set_file_times = λ p a m. change (λ e. record e { atime = a; mtime = m }) p;
  from_unix_time = λ secs nanos. record { secs = secs; nanos = nanos };
  from_system_time = λ t. t;
  now = λ s. record { secs = pos 1000; nanos = 0 };
  statvfs = λ p s. ok (record { f_bsize = 512; f_frsize = 4096; f_blocks = 100; f_bavail = 60 });
}

abbrev pub memory_view : View memory
memory_view = record {
  inode = find;
  is_link = λ p s. false;
  content = content;
  number = λ f. f.number;
  position = λ f. f.position;
}
