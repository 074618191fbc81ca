-- ===== src/Server/Fs/Memory.antt =====
-- A disk in memory that keeps what `IsFileSystem` assumes, for tests and witnesses. A slot holds a
-- file or a directory under its path; its real path is what the path resolves to, so that a
-- symbolic link on the way to a file is a slot whose real path lies elsewhere; no path is itself a
-- symbolic link.
pub mod Model
pub mod Slots
pub mod Laws
use netfilum.Prelude.{
  ℕ, zero, suc, ◌+◌, ◌-◌, Bool, true, false, not, ◌&&◌, ◌||◌, Option, none, some, ◌++◌,
}
use netfilum.Prelude.{List, [], ◌∷◌, map, length, take, drop, ltb, if◌then◌else◌}
use netfilum.Prelude.Int.{ℤ, pos, negsuc}
use netfilum.Prelude.Texts.{Text, Bytes, codes}
use netfilum.Prelude.Results.{Result, ok, err, Run}
use netfilum.Protocol.Errors.{ErrorKind, IoError, IoResult}
use netfilum.Paths.{Component, normal, PathBuf, parent, path_eq, path_starts_with}
use netfilum.Server.Fs.{Fs, SystemTime, Metadata, OpenOptions, SeekFrom, start, from_end, Statvfs}
use netfilum.Server.Fs.View.{View, overwrite, resize}

pub record Slot : Type 0 where
  pub path : PathBuf
  pub real : PathBuf
  pub live : Bool
  pub is_dir : Bool
  pub bytes : Bytes
  pub mode : ℕ
  pub atime : SystemTime
  pub mtime : SystemTime

abbrev pub Disk : Type 0
Disk = List Slot

pub record Handle : Type 0 where
  pub number : ℕ
  pub position : ℕ

abbrev pub at_path : PathBuf → Slot → Bool
at_path p e = e.live && path_eq e.path p

unfoldable pub find : PathBuf → Disk → Option ℕ
find p [] = none
find p (e ∷ s) =
    if at_path p e then some 0 else (elim (find p s) [ none ↦ none | some i ↦ some (suc i) ])

unfoldable pub slot_at : ℕ → Disk → Option Slot
slot_at i [] = none
slot_at zero (e ∷ s) = some e
slot_at (suc i) (e ∷ s) = slot_at i s

abbrev pub slot_bytes : Option Slot → Bytes
slot_bytes none = []
slot_bytes (some e) = e.bytes

unfoldable pub content : ℕ → Disk → Bytes
unfolding slot_at
content i s = slot_bytes (slot_at i s)

unfoldable pub update : ℕ → (Slot → Slot) → Disk → Disk
update i f [] = []
update zero f (e ∷ s) = f e ∷ s
update (suc i) f (e ∷ s) = e ∷ update i f s

abbrev pub failure : ErrorKind → IoError
failure kind = record { kind = kind; message = codes "os error" }

abbrev epoch : SystemTime
epoch = record { secs = pos 0; nanos = 0 }

abbrev pub new_slot : PathBuf → Bool → Slot
new_slot p is_dir = record {
  path = p;
  real = p;
  live = true;
  is_dir = is_dir;
  bytes = [];
  mode = 0o644;
  atime = epoch;
  mtime = epoch;
}

abbrev pub metadata_of : Slot → Metadata
metadata_of e = record {
  is_dir = e.is_dir;
  is_file = not e.is_dir;
  len = length e.bytes;
  blocks = 8;
  created = none;
  accessed = some e.atime;
  modified = some e.mtime;
  ctime = pos 0;
  ctime_nsec = 0;
  mode = e.mode;
}

-- The slot under a path, or `NotFound`.
abbrev pub found_slot : PathBuf → Disk → Option Slot
found_slot p s = elim (find p s) [ none ↦ none | some i ↦ slot_at i s ]

abbrev pub query {ℓ} : {A : Type ℓ} → (Slot → A) → PathBuf → Disk → Result IoError A
query f p s = elim (found_slot p s) [ none ↦ err (failure ErrorKind.not_found) | some e ↦ ok (f e) ]

abbrev last_name : PathBuf → Option Text
last_name [] = none
last_name (normal t ∷ []) = some t
last_name (_ ∷ []) = none
last_name (_ ∷ c ∷ p) = last_name (c ∷ p)

abbrev is_child : PathBuf → Slot → Bool
is_child p e = e.live && elim (parent e.path) [ none ↦ false | some q ↦ path_eq q p ]

unfoldable pub children : PathBuf → Disk → List (IoResult Text)
unfolding parent
children p [] = []
children p (e ∷ s) =
    let rest = children p s in
    if is_child p e then (elim (last_name e.path) [ none ↦ rest | some t ↦ ok t ∷ rest ]) else rest

abbrev free : Slot → Slot
free e = record e { live = false }

-- Takes what stands at a path away.
unfoldable pub unlink : PathBuf → Disk → Disk
unlink p [] = []
unlink p (e ∷ s) = (if at_path p e then free e else e) ∷ unlink p s

unfoldable pub unlink_below : PathBuf → Disk → Disk
unfolding path_starts_with
unlink_below p [] = []
unlink_below p (e ∷ s) = (if path_starts_with e.path p then free e else e) ∷ unlink_below p s

-- Gives what stands at the first path the second one.
unfoldable pub relabel : PathBuf → PathBuf → Disk → Disk
relabel p q [] = []
relabel p q (e ∷ s) = (if at_path p e then record e { path = q; real = q } else e) ∷ relabel p q s

abbrev pub open_slot : Option ℕ → Option Slot → Disk → Result IoError Handle × Disk
open_slot (some i) (some e) s =
    if e.is_dir
    then (err (failure ErrorKind.is_a_directory), s)
    else (ok (record { number = i; position = 0 }), s)
open_slot _ _ s = (err (failure ErrorKind.not_found), s)

abbrev pub create_slot : Bool → PathBuf → Option ℕ → Disk → Result IoError Handle × Disk
create_slot is_dir p (some i) s = (err (failure ErrorKind.already_exists), s)
create_slot is_dir p none s =
    (ok (record { number = length s; position = 0 }), s ++ (new_slot p is_dir ∷ []))

unfoldable pub open_file : OpenOptions → PathBuf → Run Disk IoError Handle
unfolding find slot_at
open_file o p s =
    if o.create_new
    then create_slot false p (find p s) s
    else open_slot (find p s) (found_slot p s) s

-- The offset of a file's end plus an integer.
abbrev end_offset : ℕ → ℤ → ℕ
end_offset n (pos k) = n + k
end_offset n (negsuc k) = n - suc k

unfoldable pub seek : SeekFrom → Handle → Run Disk IoError Handle
unfolding content
seek (start n) f s = (ok (record f { position = n }), s)
seek (from_end z) f s = (ok (record f { position = end_offset (length (content f.number s)) z }), s)

unfoldable pub write_all : Bytes → Handle → Run Disk IoError Handle
unfolding content update overwrite
write_all d f s =
    if ltb f.number (length s)
    then (
      ok (record f { position = f.position + length d }),
      update f.number (λ e. record e { bytes = overwrite f.position d e.bytes }) s,
    )
    else (err (failure ErrorKind.not_found), s)

unfoldable pub truncate : ℕ → Handle → Run Disk IoError Unit
unfolding update resize
truncate n f s =
    if ltb f.number (length s)
    then (ok tt, update f.number (λ e. record e { bytes = resize n e.bytes }) s)
    else (err (failure ErrorKind.not_found), s)

-- Changes the slot under a path.
abbrev pub change : (Slot → Slot) → PathBuf → Run Disk IoError Unit
change f p s = elim (find p s) [
  | none ↦ (err (failure ErrorKind.not_found), s)
  | some i ↦ (ok tt, update i f s)
]

unfoldable pub remove : (Disk → Disk) → PathBuf → Run Disk IoError Unit
unfolding find
remove f p s = elim (find p s) [
  | none ↦ (err (failure ErrorKind.not_found), s)
  | some i ↦ (ok tt, f s)
]

unfoldable pub move : PathBuf → PathBuf → Run Disk IoError Unit
unfolding find relabel unlink
move p q s = elim (find p s) [
  | none ↦ (err (failure ErrorKind.not_found), s)
  | some i ↦ (ok tt, if path_eq p q then s else relabel p q (unlink q s))
]

abbrev pub forget {ℓ} : {A : Type ℓ} → Result IoError A × Disk → Result IoError (Unit {0}) × Disk
forget (ok a, s) = (ok tt, s)
forget (err e, s) = (err e, s)

-- A directory that is there already is left alone.
abbrev pub ensure_dir : PathBuf → Option ℕ → Run Disk IoError Unit
ensure_dir p (some i) s = (ok tt, s)
ensure_dir p none s = forget (create_slot true p none s)
