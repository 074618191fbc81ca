-- ===== src/Server/Fs/View.antt =====
-- What the proofs about file contents assume of the operating system: the documented behaviour of
-- `open`, `lseek`, `read`, `write` and `fstat` on files. A path stands for a file by its number, so
-- that links are two paths with one number; a symbolic link stands for what it leads to, and for
-- nothing where that is not there.
use Prim.Native.Nat.{bit_and}
use netfilum.Prelude.{
  true, ℕ, zero, suc, ◌+◌, ◌≤◌, ◌≡◌, ◌≢◌, false, Option, none, some, [], ◌∷◌, ◌++◌,
}
use netfilum.Prelude.{
  length, take, drop, arith, refl, ap, sym, ◌∙◌, Bool, max, append-nil, length-append, length-drop,
}
use netfilum.Prelude.Int.{pos}
use netfilum.Prelude.Texts.{Bytes}
use netfilum.Prelude.Results.{ok, err}
use netfilum.Protocol.Errors.{IoError}
use netfilum.Paths.{PathBuf, path_starts_with}
use netfilum.Server.Fs.{Fs, Metadata, OpenOptions, start, from_end}

-- The bytes of a file where some bytes are put at an offset; a gap before it is filled with zeros.
unfoldable pub patch : ℕ → Bytes → Bytes → Bytes
patch zero d c = d ++ drop (length d) c
patch (suc n) d [] = 0 ∷ patch n d []
patch (suc n) d (x ∷ c) = x ∷ patch n d c

-- The bytes of a file after a write at an offset. A write of no bytes changes nothing, also past the
-- end.
unfoldable pub overwrite : ℕ → Bytes → Bytes → Bytes
unfolding patch
overwrite n [] c = c
overwrite n (x ∷ d) c = patch n (x ∷ d) c

-- The bytes of a file whose length is set: cut off, or filled up with zeros.
unfoldable pub resize : ℕ → Bytes → Bytes
resize zero c = []
resize (suc n) [] = 0 ∷ resize n []
resize (suc n) (x ∷ c) = x ∷ resize n c

pub record View (F : Fs) : Type 0 where
  pub inode : PathBuf → F.State → Option ℕ
  pub is_link : PathBuf → F.State → Bool
  pub content : ℕ → F.State → Bytes
  pub number : F.File → ℕ
  pub position : F.File → ℕ

module _ (F : Fs) (V : View F) where
  -- The same files with the same bytes.
  abbrev pub Same : F.State → F.State → Type 0
  Same s t = ((p : PathBuf) → V.inode p t ≡ V.inode p s) × ((i : ℕ) → V.content i t ≡ V.content i s)

  pub Same-trans : (s t u : F.State) → Same s t → Same t u → Same s u
  Same-trans s t u h k = (λ p. k.0 p ∙ h.0 p, λ i. k.1 i ∙ h.1 i)

  -- `t` is `s` with the bytes `d` written into the file `i` at an offset.
  abbrev pub Written : F.State → F.State → ℕ → ℕ → Bytes → Type 0
  Written s t i offset d =
      (V.content i t ≡ overwrite offset d (V.content i s))
      × ((j : ℕ) → j ≢ i → V.content j t ≡ V.content j s)
      × ((p : PathBuf) → V.inode p t ≡ V.inode p s)

  pub Written-Same :
      (s t u v : F.State) (i offset : ℕ) (d : Bytes)
      → Same s t
      → Written t u i offset d
      → Same u v
      → Written s v i offset d
  Written-Same s t u v i offset d h w k = (
    k.1 i ∙ w.0 ∙ ap (overwrite offset d) (h.1 i),
    λ j n. k.1 j ∙ w.1 j n ∙ h.1 j,
    λ p. k.0 p ∙ w.2 p ∙ h.0 p,
  )

  -- The file `i` has a new length, and all else is as it was.
  abbrev pub Resized : F.State → F.State → ℕ → ℕ → Type 0
  Resized s t i n =
      (V.content i t ≡ resize n (V.content i s))
      × ((j : ℕ) → j ≢ i → V.content j t ≡ V.content j s)
      × ((p : PathBuf) → V.inode p t ≡ V.inode p s)

  -- A path that stood for a file still does, and for the same one.
  abbrev pub Kept : F.State → F.State → Type 0
  Kept s t = (q : PathBuf) (i : ℕ) → V.inode q s ≡ some i → V.inode q t ≡ some i

  -- `i` is a new, empty file under the path; the files that were there are as they were.
  abbrev pub Created : F.State → F.State → PathBuf → ℕ → Type 0
  Created s t p i =
      (V.inode p s ≡ none)
      × (V.inode p t ≡ some i)
      × (V.content i t ≡ [])
      × Kept s t
      × ((j : ℕ) → j ≢ i → V.content j t ≡ V.content j s)

  -- Nothing stands at the path any more; every path that stands for a file stood for it before, and
  -- the file has the bytes that it had. No symbolic link stands at the path, or where none was.
  abbrev pub Removed : F.State → F.State → PathBuf → Type 0
  Removed s t p =
      (V.inode p t ≡ none)
      × ((q : PathBuf) (i : ℕ)
          → V.inode q t ≡ some i
          → (V.inode q s ≡ some i) × (V.content i t ≡ V.content i s))
      × (V.is_link p t ≡ false)
      × ((q : PathBuf) → V.is_link q t ≡ true → V.is_link q s ≡ true)

  -- The path stands for the same file, and every file has the same bytes.
  abbrev pub SameBytes : F.State → F.State → PathBuf → Type 0
  SameBytes s t p = (V.inode p t ≡ V.inode p s) × ((i : ℕ) → V.content i t ≡ V.content i s)

  -- What stands at the path has the write bits of this mode.
  abbrev pub HasWriteBits : PathBuf → F.State → ℕ → Type 0
  HasWriteBits p t mode =
      (m : Metadata) × (F.metadata p t ≡ ok m) × (bit_and m.mode 0o222 ≡ bit_and mode 0o222)

  pub record IsFileSystem : Type 0 where
    -- A path stands for a file exactly where `stat` succeeds; a regular file's length is that of its
    -- bytes.
    pub metadata_missing :
        (p : PathBuf) (s : F.State) (e : IoError) → F.metadata p s ≡ err e → V.inode p s ≡ none
    pub metadata_found :
        (p : PathBuf) (s : F.State) (m : Metadata)
        → F.metadata p s ≡ ok m
        → (i : ℕ) × (V.inode p s ≡ some i) × (m.is_file ≡ true → m.len ≡ length (V.content i s))
    pub create_new :
        (o : OpenOptions) (p : PathBuf) (s : F.State) (f : F.File)
        → o.create_new ≡ true
        → (F.open_file o p s).0 ≡ ok f
        → Created s (F.open_file o p s).1 p (V.number f)
    -- What was created is no directory where it is a file, and a directory where it is one.
    pub create_new_kind :
        (o : OpenOptions) (p : PathBuf) (s : F.State) (f : F.File) (m : Metadata)
        → o.create_new ≡ true
        → (F.open_file o p s).0 ≡ ok f
        → F.metadata p (F.open_file o p s).1 ≡ ok m
        → m.is_dir ≡ false
    pub create_dir_kind :
        (p : PathBuf) (s : F.State) (m : Metadata)
        → (F.create_dir p s).0 ≡ ok tt
        → F.metadata p (F.create_dir p s).1 ≡ ok m
        → m.is_dir ≡ true
    pub create_dir :
        (p : PathBuf) (s : F.State)
        → (F.create_dir p s).0 ≡ ok tt
        → (i : ℕ) × Created s (F.create_dir p s).1 p i
    pub set_len :
        (n : ℕ) (f : F.File) (s : F.State)
        → (F.set_len n f s).0 ≡ ok tt
        → Resized s (F.set_len n f s).1 (V.number f) n
    pub sync_all :
        (f : F.File) (s : F.State) → (F.sync_all f s).0 ≡ ok tt → Same s (F.sync_all f s).1
    pub remove_dir :
        (p : PathBuf) (s : F.State)
        → (F.remove_dir p s).0 ≡ ok tt
        → Removed s (F.remove_dir p s).1 p
    pub remove_dir_all :
        (p q : PathBuf) (s : F.State)
        → (F.remove_dir_all p s).0 ≡ ok tt
        → path_starts_with q p ≡ true
        → Removed s (F.remove_dir_all p s).1 q
    pub set_permissions :
        (p : PathBuf) (mode : ℕ) (s : F.State)
        → (F.set_permissions p mode s).0 ≡ ok tt
        → HasWriteBits p (F.set_permissions p mode s).1 mode
          × SameBytes s (F.set_permissions p mode s).1 p
    pub set_file_times :
        (p : PathBuf) (a b : F.FileTime) (s : F.State) (m : Metadata)
        → F.metadata p s ≡ ok m
        → (F.set_file_times p a b s).0 ≡ ok tt
        → HasWriteBits p (F.set_file_times p a b s).1 m.mode
          × SameBytes s (F.set_file_times p a b s).1 p
    pub open_file :
        (o : OpenOptions) (p : PathBuf) (s : F.State) (f : F.File)
        → o.create_new ≡ false
        → (F.open_file o p s).0 ≡ ok f
        → (V.inode p s ≡ some (V.number f)) × (V.position f ≡ 0) × Same s (F.open_file o p s).1
    pub seek_start :
        (n : ℕ) (f : F.File) (s : F.State) (g : F.File)
        → (F.seek (start n) f s).0 ≡ ok g
        → (V.number g ≡ V.number f) × (V.position g ≡ n) × Same s (F.seek (start n) f s).1
    pub seek_end :
        (f : F.File) (s : F.State) (g : F.File)
        → (F.seek (from_end (pos 0)) f s).0 ≡ ok g
        → (V.number g ≡ V.number f)
          × (V.position g ≡ length (V.content (V.number f) s))
          × Same s (F.seek (from_end (pos 0)) f s).1
    pub read :
        (n : ℕ) (f : F.File) (s : F.State) (bytes : Bytes)
        → (F.read n f s).0 ≡ ok bytes
        → (bytes ≡ take (length bytes) (drop (V.position f) (V.content (V.number f) s)))
          × (length bytes ≤ n)
          × Same s (F.read n f s).1
    pub write_all :
        (d : Bytes) (f : F.File) (s : F.State) (g : F.File)
        → (F.write_all d f s).0 ≡ ok g
        → Written s (F.write_all d f s).1 (V.number f) (V.position f) d
    pub flush : (f : F.File) (s : F.State) → (F.flush f s).0 ≡ ok tt → Same s (F.flush f s).1
    -- A `File` has no buffer of its own, so that `flush` makes no call.
    pub flush_metadata :
        (p : PathBuf) (f : F.File) (s : F.State) → F.metadata p (F.flush f s).1 ≡ F.metadata p s
    pub remove_file :
        (p : PathBuf) (s : F.State)
        → (F.remove_file p s).0 ≡ ok tt
        → Removed s (F.remove_file p s).1 p
    -- A symbolic link that is moved may lead elsewhere, and where it leads nowhere, it can be moved.
    pub rename :
        (p q : PathBuf) (s : F.State)
        → V.is_link p s ≡ false
        → (F.rename p q s).0 ≡ ok tt
        → V.inode q (F.rename p q s).1 ≡ V.inode p s
    pub rename_content :
        (p q : PathBuf) (s : F.State)
        → (F.rename p q s).0 ≡ ok tt
        → (i : ℕ) → V.content i (F.rename p q s).1 ≡ V.content i s
    pub rename_gone :
        (p q : PathBuf) (s : F.State)
        → V.inode q s ≡ none
        → (F.rename p q s).0 ≡ ok tt
        → V.inode p (F.rename p q s).1 ≡ none
    pub rename_missing :
        (p q : PathBuf) (s : F.State)
        → V.is_link p s ≡ false
        → V.inode p s ≡ none
        → (e : IoError) × (F.rename p q s ≡ (err e, s))

drop-nil : (n : ℕ) → drop {A = ℕ} n [] ≡ []
drop-nil zero = refl
drop-nil (suc n) = refl

take-append : (d e : Bytes) (k : ℕ) → k ≤ length d → take k (d ++ e) ≡ take k d
take-append d e zero h = refl
take-append [] e (suc k) h = absurd (omega arith)
take-append (x ∷ d) e (suc k) h = ap (λ l. x ∷ l) (take-append d e k (omega arith))

patch-length : (d c : Bytes) → patch (length c) d c ≡ c ++ d
unfolding patch
patch-length d [] = rw (drop-nil, append-nil)
patch-length d (x ∷ c) = ap (λ l. x ∷ l) (patch-length d c)

-- A write at the end appends.
pub overwrite-length : (d c : Bytes) → overwrite (length c) d c ≡ c ++ d
unfolding overwrite
overwrite-length [] c = sym (append-nil c)
overwrite-length (x ∷ d) c = patch-length (x ∷ d) c

take-drop-patch :
    (n : ℕ) (d c : Bytes) (k : ℕ) → k ≤ length d → take k (drop n (patch n d c)) ≡ take k d
unfolding patch
take-drop-patch zero d c k h = take-append d (drop (length d) c) k h
take-drop-patch (suc n) d [] k h = take-drop-patch n d [] k h
take-drop-patch (suc n) d (x ∷ c) k h = take-drop-patch n d c k h

take-none : (k : ℕ) (c : Bytes) → k ≤ 0 → take k c ≡ []
take-none zero c h = refl
take-none (suc k) c h = absurd (omega arith)

-- What was written is read back at its place.
pub take-drop-overwrite :
    (n : ℕ) (d c : Bytes) (k : ℕ) → k ≤ length d → take k (drop n (overwrite n d c)) ≡ take k d
unfolding overwrite
take-drop-overwrite n [] c k h = take-none k (drop n c) h ∙ sym (take-none k [] h)
take-drop-overwrite n (x ∷ d) c k h = take-drop-patch n (x ∷ d) c k h

length-patch :
    (n : ℕ) (d c : Bytes) → n ≤ length c → length (patch n d c) ≡ max (length c) (n + length d)
unfolding patch
length-patch zero d c h =
    omega (arith, length-append d (drop (length d) c), length-drop (length d) c)
length-patch (suc n) d [] h = absurd (omega arith)
length-patch (suc n) d (x ∷ c) h = omega (arith, length-patch n d c)

pub length-overwrite :
    (n : ℕ) (d c : Bytes) → n ≤ length c → length (overwrite n d c) ≡ max (length c) (n + length d)
unfolding overwrite
length-overwrite n [] c h = omega arith
length-overwrite n (x ∷ d) c h = length-patch n (x ∷ d) c h
