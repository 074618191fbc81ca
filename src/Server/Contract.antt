-- ===== src/Server/Contract.antt =====
-- What the requests to the server of crates/netfilum-server/src/server.rs promise where they succeed,
-- in terms of the files of the disk: a specification that does not mention the calls of the
-- operating system but those that ask for metadata, names, space and the time, and those that set the
-- mode and the times of a file.
pub mod Steps
pub mod Attributes
pub mod NextTimes
pub mod BasicInfo
pub mod Laws
pub mod Dispatch
use Prim.Native.Nat.{bit_and, bit_or}
use netfilum.Prelude.{
  ℕ, ◌-◌, ◌%◌, ◌^◌, ◌≤◌, ◌≡◌, ◌⊎◌, Bool, true, false, List, Option, none, some, [], length, take,
  drop, if◌then◌else◌,
}
use netfilum.Prelude.Texts.{Text, Bytes}
use netfilum.Prelude.Results.{ok, err}
use netfilum.Protocol.{
  EntryKind, file, directory, FileAttr, DirEntry, BasicInfoUpdate, FileTimeValue, Request, Response,
}
use netfilum.Paths.{PathBuf}
use netfilum.Prelude.Int.{pos, ltb_ℤ}
use netfilum.Server.Fs.{Fs, Metadata, SystemTime, succeeds}
use netfilum.Server.Times.{system_time_to_wire}
use netfilum.Server.Fs.View.{View, Same, Written, Resized, Created, Removed, SameBytes}
use netfilum.Server.Resolve.{RpcServer, resolve_existing, resolve_for_new_path}
use netfilum.Server.Attributes.{attr_of_metadata, filesystem_capacity}
use netfilum.Server.Files.Listing.{IsListing}

abbrev pub is_directory : EntryKind → Bool
is_directory directory = true
is_directory file = false

module _ (F : Fs) (V : View F) (server : RpcServer) where
  -- The path of a request stands for what is at a path of the disk.
  abbrev pub Found : Text → F.State → PathBuf → Type 0
  Found relative s p = (resolve_existing F server relative s).0 ≡ ok p

  -- The answer has the attributes of what is at a path.
  abbrev pub IsAttr : PathBuf → F.State → FileAttr → Type 0
  IsAttr p t a = (m : Metadata) × (F.metadata p t ≡ ok m) × (a ≡ attr_of_metadata m)

  abbrev pub HasStat : Text → F.State → Response → F.State → Type 0
  HasStat path s r t =
      (p : PathBuf) × (a : FileAttr) × Found path s p
      × (r ≡ Response.attr a)
      × IsAttr p t a
      × (t ≡ s)

  -- A new, empty file or directory, of the kind that was asked for, where nothing was.
  abbrev pub HasCreated : Text → EntryKind → F.State → Response → F.State → Type 0
  HasCreated path kind s r t =
      (p : PathBuf) × (i : ℕ) × (a : FileAttr) × ((resolve_for_new_path F server path s).0 ≡ ok p)
      × (r ≡ Response.attr a)
      × IsAttr p t a
      × (a.kind ≡ kind)
      × Created F V s t p i

  abbrev pub HasPayload : Text → ℕ → ℕ → F.State → Response → F.State → Type 0
  HasPayload path offset len s r t =
      (p : PathBuf) × (i : ℕ) × (bytes : Bytes) × Found path s p
      × (r ≡ Response.payload bytes)
      × (V.inode p s ≡ some i)
      × (bytes ≡ take (length bytes) (drop offset (V.content i s)))
      × (length bytes ≤ len)
      × Same F V s t

  abbrev pub HasWrite : Text → ℕ → Bytes → Bool → F.State → Response → F.State → Type 0
  HasWrite path offset d write_to_eof s r t =
      (p : PathBuf) × (i : ℕ) × (a : FileAttr) × Found path s p
      × (r ≡ Response.write_result (length d % 2 ^ 32) a)
      × IsAttr p t a
      × (V.inode p s ≡ some i)
      × Written F V s t i (if write_to_eof then length (V.content i s) else offset) d

  -- What is at the path is of the kind that is to be deleted, and a directory is empty.
  abbrev pub IsDeletable : Text → EntryKind → F.State → Response → F.State → Type 0
  IsDeletable path kind s r t =
      (p : PathBuf) × (m : Metadata) × Found path s p
      × (r ≡ Response.empty)
      × (F.metadata p s ≡ ok m)
      × (m.is_dir ≡ is_directory kind)
      × (is_directory kind ≡ true → F.read_dir p s ≡ ok [])
      × (t ≡ s)

  abbrev pub HasRemoved : Text → F.State → Response → F.State → Type 0
  HasRemoved path s r t = (p : PathBuf) × Found path s p × (r ≡ Response.empty) × Removed F V s t p

  -- What is at the path is neither a file nor a directory.
  abbrev pub IsSpecial : PathBuf → F.State → Type 0
  IsSpecial p s =
      (m : Metadata) × (F.metadata p s ≡ ok m) × (m.is_dir ≡ false) × (m.is_file ≡ false)

  -- The new path stands for the file of the old one, with the bytes that it had, unless the old one is
  -- itself a symbolic link, and the old path stands for nothing; where nothing may be replaced, nothing
  -- was at the new path. That the old path is gone is not said where the new one was a socket or the
  -- like, which may be the same one.
  abbrev pub HasRenamed : Text → Text → Bool → F.State → Response → F.State → Type 0
  HasRenamed from to replace s r t =
      (p : PathBuf) × (q : PathBuf) × Found from s p
      × ((resolve_for_new_path F server to s).0 ≡ ok q)
      × (r ≡ Response.empty)
      × (replace ≡ false → V.inode q s ≡ none)
      × ((V.inode p t ≡ none) ⊎ IsSpecial q s)
      × ((V.is_link p s ≡ true)
          ⊎ ((i : ℕ) × (V.inode p s ≡ some i)
              × (V.inode q t ≡ some i)
              × (V.content i t ≡ V.content i s)))

  abbrev pub HasLen : Text → ℕ → Bool → F.State → Response → F.State → Type 0
  HasLen path size false s r t =
      (p : PathBuf) × (i : ℕ) × (a : FileAttr) × Found path s p
      × (r ≡ Response.attr a)
      × IsAttr p t a
      × (V.inode p s ≡ some i)
      × Resized F V s t i size
  HasLen path size true s r t = HasStat path s r t

  -- The disk after the mark of a file: it is as it was where the request leaves the mark alone; else
  -- the bits for writing are taken from the file's mode, or the owner's is added.
  abbrev pub IsMarking : PathBuf → Option Bool → F.State → F.State → Type 0
  IsMarking p none s u = u ≡ s
  IsMarking p (some true) s u =
      (m : Metadata) × (F.metadata p s ≡ ok m)
      × (u ≡ (F.set_permissions p (bit_and m.mode (2 ^ 32 - 1 - 0o222)) s).1)
  IsMarking p (some false) s u =
      (m : Metadata) × (F.metadata p s ≡ ok m)
      × (u ≡ (F.set_permissions p (bit_or m.mode 0o200) s).1)

  -- The time of the disk for a time of the protocol; there is none for one before 1970.
  abbrev pub known : Option FileTimeValue → Option F.FileTime
  known none = none
  known (some v) = if ltb_ℤ v.secs (pos 0) then none else some (F.from_unix_time v.secs v.nanos)

  abbrev pub first_known : Option F.FileTime → F.FileTime → F.FileTime
  first_known (some x) y = x
  first_known none y = y

  -- The time that is stored, and else the time of day.
  abbrev pub current : Option SystemTime → F.State → F.FileTime
  current stored u = first_known (known (system_time_to_wire stored)) (F.from_system_time (F.now u))

  -- The time that a request names, and else the current one.
  abbrev pub next_time : Option FileTimeValue → Option SystemTime → F.State → F.FileTime
  next_time named stored u = first_known (known named) (current stored u)

  -- Where the request names neither time, the times are left alone; else the time of the last access
  -- is set to the one that is named so, or kept, and so is the time of the last write.
  abbrev pub HasTimes :
      PathBuf → Option FileTimeValue → Option FileTimeValue → F.State → F.State → Type 0
  HasTimes p none none u t = t ≡ u
  HasTimes p accessed modified u t =
      (m : Metadata) × (F.metadata p u ≡ ok m)
      × (t
          ≡ (F.set_file_times p (next_time accessed m.accessed u) (next_time modified m.modified u)
              u).1)

  -- The read-only mark that the request names is the one of the answer, the times are set as it says,
  -- and no bytes change.
  abbrev pub HasBasicInfo : Text → BasicInfoUpdate → F.State → Response → F.State → Type 0
  HasBasicInfo path update s r t =
      (p : PathBuf) × (a : FileAttr) × Found path s p
      × (r ≡ Response.attr a)
      × IsAttr p t a
      × ((b : Bool) → update.readonly ≡ some b → a.readonly ≡ b)
      × SameBytes F V s t p
      × ((u : F.State) × IsMarking p update.readonly s u
          × HasTimes p update.last_access_time update.last_write_time u t)

  abbrev pub HasVolume : F.State → Response → F.State → Type 0
  HasVolume s r t =
      (total : ℕ) × (free : ℕ) × (filesystem_capacity F server.root_real s ≡ ok (total, free))
      × (r
          ≡ Response.volume_info
              (record { total_size = total; free_size = free; label = server.volume_label }))
      × (t ≡ s)

  -- The request `q` led from the disk `s` to the response `r` and the disk `t`.
  abbrev pub Fulfils : Request → F.State → Response → F.State → Type 0
  Fulfils (Request.stat path) s r t = HasStat path s r t
  Fulfils (Request.open_path path) s r t = HasStat path s r t
  Fulfils (Request.create path kind attributes allocation) s r t = HasCreated path kind s r t
  Fulfils (Request.read_dir path) s r t =
      (es : List DirEntry) × (r ≡ Response.dir_entries es) × IsListing F server path s es × (t ≡ s)
  Fulfils (Request.read path offset len) s r t = HasPayload path offset len s r t
  Fulfils (Request.write path offset d to_eof) s r t = HasWrite path offset d to_eof s r t
  Fulfils (Request.can_delete path kind) s r t = IsDeletable path kind s r t
  Fulfils (Request.remove_file path) s r t = HasRemoved path s r t
  Fulfils (Request.remove_dir path) s r t = HasRemoved path s r t
  Fulfils (Request.rename path new_path replace) s r t = HasRenamed path new_path replace s r t
  Fulfils (Request.set_len path size allocation) s r t = HasLen path size allocation s r t
  Fulfils (Request.flush path) s r t = (r ≡ Response.empty) × Same F V s t
  Fulfils (Request.set_basic_info path update) s r t = HasBasicInfo path update s r t
  Fulfils Request.get_volume_info s r t = HasVolume s r t
