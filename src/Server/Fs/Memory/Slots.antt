-- ===== src/Server/Fs/Memory/Slots.antt =====
-- What the disk in memory holds after each change of its list of slots.
use netfilum.Prelude.{
  ℕ, zero, suc, ◌<◌, ◌≡◌, ◌≢◌, refl, ap, arith, true, false, ◌++◌, Option-cases, none, some,
}
use netfilum.Prelude.{[], ◌∷◌, length, Bool-cases, inl, inr}
use netfilum.Prelude.Texts.{Bytes}
use netfilum.Paths.{PathBuf, path_eq, path_eq_iff, path_starts_with}
use netfilum.Server.Fs.Memory.{
  Slot, Disk, find, content, update, unlink, relabel, at_path, unlink_below, slot_at,
}

pub find-unlink_self : (p : PathBuf) (s : Disk) → find p (unlink p s) ≡ none
unfolding find unlink
find-unlink_self p [] = refl
find-unlink_self p (e ∷ s) = ground (arith, find-unlink_self p s)

-- What stood at the first path stands at the second.
pub find-relabel : (p q : PathBuf) (s : Disk) → find q s ≡ none → find q (relabel p q s) ≡ find p s
unfolding find relabel
find-relabel p q [] h = refl
find-relabel p q (e ∷ s) h = ground (arith, find-relabel p q s, (path_eq_iff q q).1 refl)

pub find-unlink_ne :
    (p q : PathBuf) (s : Disk) → path_eq p q ≡ false → find p (unlink q s) ≡ find p s
unfolding find unlink
find-unlink_ne p q [] h = refl
find-unlink_ne p q (e ∷ s) h =
    ground
      (arith, find-unlink_ne p q s h, path_eq_iff p q, path_eq_iff e.path p, path_eq_iff e.path q)

pub content-unlink : (i : ℕ) (p : PathBuf) (s : Disk) → content i (unlink p s) ≡ content i s
unfolding content unlink
content-unlink i p [] = refl
content-unlink zero p (e ∷ s) = ground arith
content-unlink (suc i) p (e ∷ s) = content-unlink i p s

pub content-relabel : (i : ℕ) (p q : PathBuf) (s : Disk) → content i (relabel p q s) ≡ content i s
unfolding content relabel
content-relabel i p q [] = refl
content-relabel zero p q (e ∷ s) = ground arith
content-relabel (suc i) p q (e ∷ s) = content-relabel i p q s

-- A change of the bytes of a slot.
module _ (f : Bytes → Bytes) where
  abbrev pub wrote : Slot → Slot
  wrote e = record e { bytes = f e.bytes }

  pub content-update_self :
      (i : ℕ) (s : Disk) → i < length s → content i (update i wrote s) ≡ f (content i s)
  unfolding content update
  content-update_self i [] h = absurd (omega arith)
  content-update_self zero (e ∷ s) h = refl
  content-update_self (suc i) (e ∷ s) h = content-update_self i s (omega arith)

  pub content-update_ne : (i j : ℕ) (s : Disk) → j ≢ i → content j (update i wrote s) ≡ content j s
  unfolding content update
  content-update_ne i j [] h = refl
  content-update_ne zero zero (e ∷ s) h = absurd (h refl)
  content-update_ne zero (suc j) (e ∷ s) h = refl
  content-update_ne (suc i) zero (e ∷ s) h = refl
  content-update_ne (suc i) (suc j) (e ∷ s) h = content-update_ne i j s (λ x. h (ap suc x))

  pub find-update : (i : ℕ) (p : PathBuf) (s : Disk) → find p (update i wrote s) ≡ find p s
  unfolding find update
  find-update i p [] = refl
  find-update zero p (e ∷ s) = refl
  find-update (suc i) p (e ∷ s) = ground (arith, find-update i p s)

-- A slot that is added at the end.
module _ (a : Slot) (p : PathBuf) (named : a.path ≡ p) (live : a.live ≡ true) where
  pub find-append_none : (s : Disk) → find p s ≡ none → find p (s ++ a ∷ []) ≡ some (length s)
  unfolding find
  find-append_none [] h = ground (arith, (path_eq_iff p p).1 refl)
  find-append_none (e ∷ s) h = ground (arith, find-append_none s)

pub find-append_some :
    (a : Slot) (q : PathBuf) (s : Disk) (i : ℕ) → find q s ≡ some i → find q (s ++ a ∷ []) ≡ some i
unfolding find
find-append_some a q [] i h = absurd (ground arith)
find-append_some a q (e ∷ s) i h = elim (Bool-cases (at_path q e)) [
  | inl here ↦ ground arith
  | inr there ↦ elim (Option-cases (find q s)) [
    | inl n ↦ absurd (ground arith)
    | inr (k, e) ↦ ground (arith, find-append_some a q s k e)
  ]
]

pub content-append :
    (a : Slot) (s : Disk) (j : ℕ) → a.bytes ≡ [] → content j (s ++ a ∷ []) ≡ content j s
unfolding content
content-append a [] zero h = ground arith
content-append a [] (suc j) h = ground arith
content-append a (e ∷ s) zero h = refl
content-append a (e ∷ s) (suc j) h = content-append a s j h

pub slot_at-append : (a : Slot) (s : Disk) → slot_at (length s) (s ++ a ∷ []) ≡ some a
unfolding slot_at
slot_at-append a [] = refl
slot_at-append a (e ∷ s) = slot_at-append a s

pub content-length : (s : Disk) → content (length s) s ≡ []
unfolding content
content-length [] = refl
content-length (e ∷ s) = content-length s

pub find-unlink_below :
    (p q : PathBuf) (s : Disk) → path_starts_with q p ≡ true → find q (unlink_below p s) ≡ none
unfolding find unlink_below
find-unlink_below p q [] h = refl
find-unlink_below p q (e ∷ s) h = ground (arith, find-unlink_below p q s h, path_eq_iff e.path q)

pub find-unlink_elsewhere :
    (p q : PathBuf) (s : Disk) → path_starts_with q p ≡ false → find q (unlink_below p s) ≡ find q s
unfolding find unlink_below
find-unlink_elsewhere p q [] h = refl
find-unlink_elsewhere p q (e ∷ s) h =
    ground (arith, find-unlink_elsewhere p q s h, path_eq_iff e.path q)

pub content-unlink_below :
    (i : ℕ) (p : PathBuf) (s : Disk) → content i (unlink_below p s) ≡ content i s
unfolding content unlink_below
content-unlink_below i p [] = refl
content-unlink_below zero p (e ∷ s) = ground arith
content-unlink_below (suc i) p (e ∷ s) = content-unlink_below i p s

pub find-slot_at :
    (p : PathBuf) (s : Disk) (i : ℕ) → find p s ≡ some i → (e : Slot) × (slot_at i s ≡ some e)
unfolding find slot_at
find-slot_at p [] i h = absurd (ground arith)
find-slot_at p (e ∷ s) i h = elim (Bool-cases (at_path p e)) [
  | inl here ↦ (e, ground arith)
  | inr there ↦ elim (Option-cases (find p s)) [
    | inl n ↦ absurd (ground arith)
    | inr (k, f) ↦ let (d, g) = find-slot_at p s k f in (d, ground arith)
  ]
]

-- A change of a slot that leaves its path and its bytes.
module _ (g : Slot → Slot) (named : (e : Slot) → (g e).path ≡ e.path)
    (living : (e : Slot) → (g e).live ≡ e.live) (holding : (e : Slot) → (g e).bytes ≡ e.bytes) where
  pub find-change : (i : ℕ) (p : PathBuf) (s : Disk) → find p (update i g s) ≡ find p s
  unfolding find update
  find-change i p [] = refl
  find-change zero p (e ∷ s) = ground (arith, named e, living e)
  find-change (suc i) p (e ∷ s) = ground (arith, find-change i p s)

  pub content-change : (i j : ℕ) (s : Disk) → content j (update i g s) ≡ content j s
  unfolding content update
  content-change i j [] = refl
  content-change zero zero (e ∷ s) = holding e
  content-change zero (suc j) (e ∷ s) = refl
  content-change (suc i) zero (e ∷ s) = refl
  content-change (suc i) (suc j) (e ∷ s) = content-change i j s

  pub slot_at-change :
      (i : ℕ) (s : Disk) (e : Slot) → slot_at i s ≡ some e → slot_at i (update i g s) ≡ some (g e)
  unfolding slot_at update
  slot_at-change i [] e h = absurd (ground arith)
  slot_at-change zero (d ∷ s) e h = ground arith
  slot_at-change (suc i) (d ∷ s) e h = slot_at-change i s e h

pub find-relabel_gone :
    (p q : PathBuf) (s : Disk) → path_eq p q ≡ false → find p (relabel p q s) ≡ none
unfolding find relabel
find-relabel_gone p q [] h = refl
find-relabel_gone p q (e ∷ s) h =
    ground (arith, find-relabel_gone p q s h, path_eq_iff q p, path_eq_iff p q)
