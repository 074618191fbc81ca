-- ===== src/Client/Attributes.antt =====
-- crates/netfilum-client/src/mount.rs: what the mounted file system reports of a file. The constants
-- are those of the Windows API.
use Prim.Native.Nat.{bit_and, bit_or}
use netfilum.Prelude.{
  ℕ, ◌+◌, ◌≡◌, arith, max, min, not, Bool, true, false, ◌&&◌, Option, none, some, ◌++◌,
}
use netfilum.Prelude.{length, take, drop, ◌==◌, if◌then◌else◌}
use netfilum.Prelude.Texts.{Bytes}
use netfilum.Protocol.{EntryKind, file, directory, FileAttr}
use netfilum.Client.Times.{windows_time_from_wire}

abbrev pub file_attribute_readonly : ℕ
file_attribute_readonly = 0x1

abbrev pub file_attribute_directory : ℕ
file_attribute_directory = 0x10

abbrev pub file_attribute_archive : ℕ
file_attribute_archive = 0x20

abbrev pub file_attribute_normal : ℕ
file_attribute_normal = 0x80

abbrev pub invalid_file_attributes : ℕ
invalid_file_attributes = 0xffff_ffff

-- `FileInfo` of winfsp.
pub record FileInfo : Type 0 where
  pub file_attributes : ℕ
  pub reparse_tag : ℕ
  pub allocation_size : ℕ
  pub file_size : ℕ
  pub creation_time : ℕ
  pub last_access_time : ℕ
  pub last_write_time : ℕ
  pub change_time : ℕ
  pub index_number : ℕ
  pub hard_links : ℕ
  pub ea_size : ℕ

abbrev pub is_file_kind : EntryKind → Bool
is_file_kind file = true
is_file_kind directory = false

abbrev pub kind_attribute : EntryKind → ℕ
kind_attribute directory = file_attribute_directory
kind_attribute file = file_attribute_archive

unfoldable pub file_attributes_from_attr : FileAttr → ℕ
file_attributes_from_attr attr =
    let attributes =
      if attr.readonly
      then bit_or (kind_attribute attr.kind) file_attribute_readonly
      else kind_attribute attr.kind in
    if is_file_kind attr.kind && attributes == 0 then file_attribute_normal else attributes

unfoldable pub readonly_update_from_attributes : ℕ → Option Bool
readonly_update_from_attributes file_attributes =
    if file_attributes == invalid_file_attributes
    then none
    else some (not (bit_and file_attributes file_attribute_readonly == 0))

-- `a.or(b)`
abbrev pub or_other {ℓ} : {A : Type ℓ} → Option A → Option A → Option A
or_other (some a) b = some a
or_other none b = b

unfoldable pub fill_file_info : FileAttr → FileInfo
unfolding file_attributes_from_attr windows_time_from_wire
fill_file_info attr = record {
  file_attributes = file_attributes_from_attr attr;
  reparse_tag = 0;
  allocation_size = max attr.allocated_size attr.size;
  file_size = attr.size;
  creation_time = windows_time_from_wire attr.created;
  last_access_time = windows_time_from_wire attr.accessed;
  last_write_time = windows_time_from_wire attr.modified;
  change_time = windows_time_from_wire (or_other attr.changed attr.modified);
  index_number = 0;
  hard_links = 0;
  ea_size = 0;
}

-- The target after `copy_security_descriptor`: its first bytes are overwritten.
unfoldable pub copy_security_descriptor : Bytes → Option Bytes → Option Bytes
copy_security_descriptor source none = none
copy_security_descriptor source (some target) =
    let len = min (length source) (length target) in some (take len source ++ drop len target)

-- The attributes that the client reports for a file say exactly its kind and whether it is read-only:
-- 0x10 for a directory, 0x20 for a file, and 1 more if it is read-only. Read back from them, the
-- read-only flag is the one of the file.
pub readonly_update-file_attributes :
    (attr : FileAttr)
    → (file_attributes_from_attr attr ≡ kind_attribute attr.kind + (if attr.readonly then 1 else 0))
      × (readonly_update_from_attributes (file_attributes_from_attr attr) ≡ some attr.readonly)
unfolding file_attributes_from_attr readonly_update_from_attributes
readonly_update-file_attributes attr = ground arith
