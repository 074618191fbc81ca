-- ===== src/Server/Fs/Memory/Laws.antt =====
-- The disk in memory keeps what `IsFileSystem` assumes.
use netfilum.Prelude.{
  ℕ, zero, suc, ◌≤◌, ◌≡◌, refl, ap, subst, ◌∙◌, arith, Bool, true, false, Option-cases, Option,
  none, some,
}
use netfilum.Prelude.{[], ◌∷◌, length, take, drop, ltb, ltb→lt, Bool-cases, inl, inr}
use netfilum.Prelude.Texts.{Bytes}
use netfilum.Prelude.Results.{ok, err, Result-cases}
use netfilum.Protocol.Errors.{ErrorKind, IoError}
use netfilum.Server.Fs.{Metadata}
use netfilum.Paths.{PathBuf, path_eq, path_eq_iff, path_starts_with}
use netfilum.Server.Fs.View.{
  IsFileSystem, Written, overwrite, Resized, resize, Created, Removed, SameBytes,
}
use netfilum.Server.Fs.Memory.{
  Slot, Disk, Handle, find, content, unlink, truncate, new_slot, create_slot, unlink_below, change,
  metadata_of,
}
use netfilum.Server.Fs.Memory.{
  open_file, seek, write_all, remove, move, found_slot, open_slot, failure,
}
use netfilum.Server.Fs.Memory.Model.{memory, memory_view}
use netfilum.Server.Fs.Memory.Slots.{
  find-unlink_self, find-relabel, find-unlink_ne, content-unlink, content-relabel,
  content-update_self, content-update_ne, find-update, find-append_none, find-append_some,
  content-append, content-length, find-unlink_below, find-unlink_elsewhere, content-unlink_below,
  find-slot_at, slot_at-append, find-change, content-change, slot_at-change, find-relabel_gone,
}

take-length-take : (n : ℕ) (xs : Bytes) → take n xs ≡ take (length (take n xs)) xs
take-length-take zero xs = refl
take-length-take (suc n) [] = refl
take-length-take (suc n) (x ∷ xs) = ap (λ l. x ∷ l) (take-length-take n xs)

length-take-le : (n : ℕ) (xs : Bytes) → length (take n xs) ≤ n
length-take-le zero xs = omega arith
length-take-le (suc n) [] = omega arith
length-take-le (suc n) (x ∷ xs) = omega (arith, length-take-le n xs)

open_slot-eq_ok :
    (i : Option ℕ) (e : Option Slot) (s : Disk) (f : Handle)
    → (open_slot i e s).0 ≡ ok f
    → (i ≡ some f.number) × (f.position ≡ 0) × ((open_slot i e s).1 ≡ s)
open_slot-eq_ok none e s f h = absurd (ground arith)
open_slot-eq_ok (some i) none s f h = absurd (ground arith)
open_slot-eq_ok (some i) (some e) s f h = ground arith

memory-write_all :
    (d : Bytes) (f : Handle) (s : Disk) (g : Handle)
    → (write_all d f s).0 ≡ ok g
    → Written memory memory_view s (write_all d f s).1 f.number f.position d
unfolding write_all
memory-write_all d f s g h = elim (Bool-cases (ltb f.number (length s))) [
  | inr e ↦ absurd (ground arith)
  | inl e ↦ rw e (
    content-update_self (overwrite f.position d) f.number s (ltb→lt _ _ e),
    λ j n. content-update_ne (overwrite f.position d) f.number j s n,
    λ p. find-update (overwrite f.position d) f.number p s,
  )
]

memory-move : (p q : PathBuf) (s : Disk) → (move p q s).0 ≡ ok tt → find q (move p q s).1 ≡ find p s
unfolding move
memory-move p q s h = elim (Bool-cases (path_eq p q)) [
  | inl e ↦ ground (arith, path_eq_iff p q)
  | inr e ↦
      ground (arith, find-relabel p q (unlink q s) (find-unlink_self q s), find-unlink_ne p q s e)
]

memory-move_content :
    (p q : PathBuf) (s : Disk)
    → (move p q s).0 ≡ ok tt
    → (i : ℕ) → content i (move p q s).1 ≡ content i s
unfolding move
memory-move_content p q s h i =
    ground (arith, content-relabel i p q (unlink q s), content-unlink i q s)

memory-truncate :
    (n : ℕ) (f : Handle) (s : Disk)
    → (truncate n f s).0 ≡ ok tt
    → Resized memory memory_view s (truncate n f s).1 f.number n
unfolding truncate
memory-truncate n f s h = elim (Bool-cases (ltb f.number (length s))) [
  | inr e ↦ absurd (ground arith)
  | inl e ↦ rw e (
    content-update_self (resize n) f.number s (ltb→lt _ _ e),
    λ j k. content-update_ne (resize n) f.number j s k,
    λ p. find-update (resize n) f.number p s,
  )
]

create_slot-Created :
    (is_dir : Bool) (p : PathBuf) (s : Disk) (f : Handle)
    → (create_slot is_dir p (find p s) s).0 ≡ ok f
    → Created memory memory_view s (create_slot is_dir p (find p s) s).1 p f.number
create_slot-Created is_dir p s f h = elim (Option-cases (find p s)) [
  | inr (i, e) ↦ absurd (ground arith)
  | inl e ↦
      let a = new_slot p is_dir in
      let n : f.number ≡ length s = ground arith in
      rw e (
        refl,
        rw n (find-append_none a p refl refl s e),
        rw n (content-append a s (length s) refl ∙ content-length s),
        λ q i k. find-append_some a q s i k,
        λ j k. content-append a s j refl,
      )
]

create_slot-kind :
    (is_dir : Bool) (p : PathBuf) (s : Disk) (f : Handle) (m : Metadata)
    → (create_slot is_dir p (find p s) s).0 ≡ ok f
    → memory.metadata p (create_slot is_dir p (find p s) s).1 ≡ ok m
    → m.is_dir ≡ is_dir
create_slot-kind is_dir p s f m h k = elim (Option-cases (find p s)) [
  | inr (i, e) ↦ absurd (ground arith)
  | inl e ↦
      let a = new_slot p is_dir in
      ground (arith, find-append_none a p refl refl s e, slot_at-append a s)
]

memory-create_dir_kind :
    (p : PathBuf) (s : Disk) (m : Metadata)
    → (memory.create_dir p s).0 ≡ ok tt
    → memory.metadata p (memory.create_dir p s).1 ≡ ok m
    → m.is_dir ≡ true
memory-create_dir_kind p s m h k = elim (Result-cases (create_slot true p (find p s) s).0) [
  | inr (x, e) ↦ absurd (ground arith)
  | inl (f, e) ↦ create_slot-kind true p s f m e (ground arith)
]

-- What stood at a path stands there no more, and nothing appears.
memory-unlink :
    (p : PathBuf) (s : Disk)
    → (remove (unlink p) p s).0 ≡ ok tt
    → Removed memory memory_view s (remove (unlink p) p s).1 p
unfolding remove
memory-unlink p s h = elim (Option-cases (find p s)) [
  | inl e ↦ absurd (ground arith)
  | inr (k, e) ↦
      rw (e, remove)
        (
          find-unlink_self p s,
          λ q i f. (
            elim (Bool-cases (path_eq q p)) [
              | inl same ↦ absurd (ground (arith, find-unlink_self p s, path_eq_iff q p))
              | inr other ↦ ground (arith, find-unlink_ne q p s other)
            ],
            content-unlink i p s,
          ),
          refl,
          λ q k. k,
        )
]

memory-unlink_below :
    (p q : PathBuf) (s : Disk)
    → (remove (unlink_below p) p s).0 ≡ ok tt
    → path_starts_with q p ≡ true
    → Removed memory memory_view s (remove (unlink_below p) p s).1 q
unfolding remove
memory-unlink_below p q s h below = elim (Option-cases (find p s)) [
  | inl e ↦ absurd (ground arith)
  | inr (k, e) ↦
      rw (e, remove)
        (
          find-unlink_below p q s below,
          λ r i f. (
            elim (Bool-cases (path_starts_with r p)) [
              | inl gone ↦ absurd (ground (arith, find-unlink_below p r s gone))
              | inr other ↦ ground (arith, find-unlink_elsewhere p r s other)
            ],
            content-unlink_below i p s,
          ),
          refl,
          λ r k. k,
        )
]

memory-metadata_missing :
    (p : PathBuf) (s : Disk) (e : IoError) → memory.metadata p s ≡ err e → find p s ≡ none
memory-metadata_missing p s e h = elim (Option-cases (find p s)) [
  | inl n ↦ n
  | inr (i, f) ↦ let (d, g) = find-slot_at p s i f in absurd (ground arith)
]

memory-metadata_found :
    (p : PathBuf) (s : Disk) (m : Metadata)
    → memory.metadata p s ≡ ok m
    → (i : ℕ) × (find p s ≡ some i) × (m.is_file ≡ true → m.len ≡ length (content i s))
unfolding content
memory-metadata_found p s m h = elim (Option-cases (find p s)) [
  | inl n ↦ absurd (ground arith)
  | inr (i, f) ↦ let (d, g) = find-slot_at p s i f in (i, f, λ r. ground arith)
]

memory-create_dir :
    (p : PathBuf) (s : Disk)
    → (memory.create_dir p s).0 ≡ ok tt
    → (i : ℕ) × Created memory memory_view s (memory.create_dir p s).1 p i
memory-create_dir p s h =
    let made = create_slot true p (find p s) s in
    elim (Result-cases made.0) [
      | inr (x, e) ↦ absurd (ground arith)
      | inl (f, e) ↦
          let left : made.1 ≡ (memory.create_dir p s).1 = ground arith in
          (
            f.number,
            subst (λ t. Created memory memory_view s t p f.number) left
                (create_slot-Created true p s f e),
          )
    ]

memory-move_gone :
    (p q : PathBuf) (s : Disk)
    → find q s ≡ none
    → (move p q s).0 ≡ ok tt
    → find p (move p q s).1 ≡ none
unfolding move
memory-move_gone p q s n h = elim (Bool-cases (path_eq p q)) [
  | inl e ↦ absurd (ground (arith, path_eq_iff p q))
  | inr e ↦ ground (arith, find-relabel_gone p q (unlink q s) e)
]

module _ (g : Slot → Slot) (named : (e : Slot) → (g e).path ≡ e.path)
    (living : (e : Slot) → (g e).live ≡ e.live) (holding : (e : Slot) → (g e).bytes ≡ e.bytes) where
  memory-change :
      (p : PathBuf) (s : Disk)
      → (change g p s).0 ≡ ok tt
      → (e : Slot) × (memory.metadata p s ≡ ok (metadata_of e))
        × (memory.metadata p (change g p s).1 ≡ ok (metadata_of (g e)))
        × SameBytes memory memory_view s (change g p s).1 p
  memory-change p s h = elim (Option-cases (find p s)) [
    | inl n ↦ absurd (ground arith)
    | inr (i, f) ↦
        let (e, at_i) = find-slot_at p s i f in
        (
          e,
          ground arith,
          ground (
            arith,
            find-change g named living holding i p s,
            slot_at-change g named living holding i s e at_i,
          ),
          (
            ground (arith, find-change g named living holding i p s),
            λ j. ground (arith, content-change g named living holding i j s),
          ),
        )
  ]

pub memory-IsFileSystem : IsFileSystem memory memory_view
unfolding open_file seek remove move
memory-IsFileSystem = record {
  metadata_missing = memory-metadata_missing;
  metadata_found = memory-metadata_found;
  create_new = λ o p s f c h. ground (arith, create_slot-Created false p s f);
  create_dir = memory-create_dir;
  create_new_kind = λ o p s f m c h k. ground (arith, create_slot-kind false p s f m);
  create_dir_kind = memory-create_dir_kind;
  set_len = memory-truncate;
  sync_all = λ f s h. (λ q. refl, λ i. refl);
  remove_dir = memory-unlink;
  remove_dir_all = memory-unlink_below;
  set_permissions = λ p mode s h.
      let (e, found, left, same) =
        memory-change (λ e. record e { mode = mode }) (λ e. refl) (λ e. refl) (λ e. refl) p s h in
      ((_, left, refl), same);
  set_file_times = λ p a b s m found h.
      let (e, found', left, same) =
        memory-change (λ e. record e { atime = a; mtime = b }) (λ e. refl) (λ e. refl) (λ e. refl) p
          s h in
      ((_, left, ground arith), same);
  open_file = λ o p s f c h.
      let r = open_slot-eq_ok (find p s) (found_slot p s) s f (ground arith) in
      (r.0, r.1, (λ q. ground arith, λ i. ground arith));
  seek_start = λ n f s g h. (ground arith, ground arith, (λ q. refl, λ i. refl));
  seek_end = λ f s g h. (ground arith, ground arith, (λ q. refl, λ i. refl));
  read = λ n f s bytes h. (
    ground (arith, take-length-take n (drop f.position (content f.number s))),
    ground (arith, length-take-le n (drop f.position (content f.number s))),
    (λ q. refl, λ i. refl),
  );
  write_all = memory-write_all;
  flush = λ f s h. (λ q. refl, λ i. refl);
  remove_file = memory-unlink;
  flush_metadata = λ p f s. refl;
  rename = λ p q s link h. memory-move p q s h;
  rename_content = memory-move_content;
  rename_gone = memory-move_gone;
  rename_missing = λ p q s link h. (failure ErrorKind.not_found, ground arith);
}
