-- ===== src/Server/Files/Listing.antt =====
-- `RpcServer::read_dir` of crates/netfilum-server/src/server.rs: what a listing holds, and its order.
use mathlib.Core.List.{Perm}
use mathlib.Core.List.Perm
use netfilum.Prelude.{
  ◌≡◌, refl, sym, ap, subst, ◌∙◌, arith, true, false, List, [], ◌∷◌, map, inl, inr,
}
use netfilum.Prelude.{Bool-cases}
use netfilum.Prelude.Texts.{Text, text_le}
use netfilum.Prelude.Results.{ok, err, Result-cases}
use netfilum.Protocol.{DirEntry}
use netfilum.Protocol.Errors.{IoResult}
use netfilum.Paths.{PathBuf, normal, join}
use netfilum.Server.Fs.{Fs}
use netfilum.Server.Attributes.{attr_for_path}
use netfilum.Server.Attributes.Laws.{attr_for_path-keeps}
use netfilum.Server.Resolve.{RpcServer, resolve_existing}
use netfilum.Server.Resolve.Laws.{resolve_existing-keeps}
use netfilum.Server.Files.{insert_by_name, sort_by_name, list_entries, read_dir}

-- The names do not fall.
abbrev pub IsSorted : List DirEntry → Type 0
IsSorted [] = Unit
IsSorted (d ∷ []) = Unit
IsSorted (d ∷ e ∷ ds) = (text_le d.name e.name ≡ true) × IsSorted (e ∷ ds)

text_le_total : (s t : Text) → text_le s t ≡ false → text_le t s ≡ true
text_le_total [] t h = absurd (ground arith)
text_le_total (x ∷ s) [] h = refl
text_le_total (x ∷ s) (y ∷ t) h = ground (arith, text_le_total s t)

insert_by_name-IsSorted :
    (e : DirEntry) (ds : List DirEntry) → IsSorted ds → IsSorted (insert_by_name e ds)
unfolding insert_by_name
insert_by_name-IsSorted e [] h = tt
insert_by_name-IsSorted e (d ∷ []) h = ground (arith, text_le_total e.name d.name)
insert_by_name-IsSorted e (d ∷ c ∷ ds) h =
    ground (arith, text_le_total e.name d.name, insert_by_name-IsSorted e (c ∷ ds) h.1)

sort_by_name-IsSorted : (es : List DirEntry) → IsSorted (sort_by_name es)
unfolding sort_by_name
sort_by_name-IsSorted [] = tt
sort_by_name-IsSorted (e ∷ es) = insert_by_name-IsSorted e _ (sort_by_name-IsSorted es)

insert_by_name-perm : (e : DirEntry) (ds : List DirEntry) → Perm (insert_by_name e ds) (e ∷ ds)
unfolding insert_by_name
insert_by_name-perm e [] = Perm.refl _
insert_by_name-perm e (d ∷ ds) = elim (Bool-cases (text_le e.name d.name)) [
  | inl h ↦ rw h (Perm.refl _)
  | inr h ↦ rw h (Perm.trans (Perm.cons d (insert_by_name-perm e ds)) (Perm.swap _ _ _))
]

sort_by_name-perm : (es : List DirEntry) → Perm (sort_by_name es) es
unfolding sort_by_name
sort_by_name-perm [] = Perm.refl _
sort_by_name-perm (e ∷ es) =
    Perm.trans (insert_by_name-perm e (sort_by_name es)) (Perm.cons e (sort_by_name-perm es))

module _ (F : Fs) (path : PathBuf) (s : F.State) where
  -- One entry for each name in turn, with the attributes of the file of that name.
  abbrev pub Describes : List Text → List DirEntry → Type 0
  Describes [] [] = Unit
  Describes [] (d ∷ ds) = ⊥
  Describes (n ∷ ns) [] = ⊥
  Describes (n ∷ ns) (d ∷ ds) =
      (d.name ≡ F.to_string_lossy n)
      × ((attr_for_path F (join path (normal n ∷ [])) s).0 ≡ ok d.attr)
      × Describes ns ds

module _ (F : Fs) (server : RpcServer) (path : PathBuf) (s : F.State) where
  list_entries-Describes :
      (entries : List (IoResult Text)) (ds : List DirEntry)
      → (list_entries F server path entries s).0 ≡ ok ds
      → (names : List Text) × (entries ≡ map ok names) × Describes F path s names ds
  unfolding list_entries
  list_entries-Describes [] [] h = ([], refl, tt)
  list_entries-Describes [] (d ∷ ds) h = absurd (ground arith)
  list_entries-Describes (err e ∷ entries) ds h = absurd (ground arith)
  list_entries-Describes (ok n ∷ entries) [] h =
      absurd (ground (arith, attr_for_path-keeps F (join path (normal n ∷ [])) s))
  list_entries-Describes (ok n ∷ entries) (d ∷ ds) h =
      let keeps = attr_for_path-keeps F (join path (normal n ∷ [])) s in
      let (names, e, rest) = list_entries-Describes entries ds (ground (arith, keeps)) in
      (n ∷ names, ap (λ l. ok n ∷ l) e, (ground (arith, keeps), ground (arith, keeps), rest))

  list_entries-keeps :
      (entries : List (IoResult Text)) → (list_entries F server path entries s).1 ≡ s
  unfolding list_entries
  list_entries-keeps [] = refl
  list_entries-keeps (err e ∷ entries) = refl
  list_entries-keeps (ok n ∷ entries) =
      ground
        (arith, attr_for_path-keeps F (join path (normal n ∷ [])) s, list_entries-keeps entries)

-- `es` lists the directory that the path of a request stands for: `listed` has an entry for each of
-- the names that the disk gives, in its order, and `es` has the same entries sorted.
pub record IsListing (F : Fs) (server : RpcServer) (relative : Text) (s : F.State)
    (es : List DirEntry) : Type 0 where
  pub path : PathBuf
  pub names : List Text
  pub listed : List DirEntry
  pub resolved : (resolve_existing F server relative s).0 ≡ ok path
  pub entries : F.read_dir path s ≡ ok (map ok names)
  pub described : Describes F path s names listed
  pub same : Perm es listed
  pub sorted : IsSorted es

module _ (F : Fs) (server : RpcServer) (relative : Text) (s : F.State) (es : List DirEntry) where
  read_dir-eq_ok :
      (read_dir F server relative s).0 ≡ ok es
      → (path : PathBuf) × (raw : List (IoResult Text)) × (listed : List DirEntry)
        × ((resolve_existing F server relative s).0 ≡ ok path)
        × (F.read_dir path s ≡ ok raw)
        × ((list_entries F server path raw s).0 ≡ ok listed)
        × (es ≡ sort_by_name listed)
  unfolding read_dir
  read_dir-eq_ok h =
      let keeps = resolve_existing-keeps F server relative s in
      elim (Result-cases (resolve_existing F server relative s).0) [
        | inr (x, e) ↦ absurd (ground arith)
        | inl (path, e) ↦ elim (Result-cases (F.read_dir path s)) [
          | inr (x, f) ↦ absurd (ground (arith, keeps))
          | inl (raw, f) ↦ elim (Result-cases (list_entries F server path raw s).0) [
            | inr (x, g) ↦ absurd (ground (arith, keeps))
            | inl (listed, g) ↦ (path, raw, listed, e, f, g, ground (arith, keeps))
          ]
        ]
      ]

  -- Where `read_dir` returns entries, they are those of the directory, one for each name that the disk
  -- lists, with the attributes of the file of that name, and in the order of their names.
  pub read_dir-IsListing :
      (read_dir F server relative s).0 ≡ ok es → IsListing F server relative s es
  read_dir-IsListing h =
      let (path, raw, listed, found, read, entries, e) = read_dir-eq_ok h in
      let (names, same, described) = list_entries-Describes F server path s raw listed entries in
      record {
        path = path;
        names = names;
        listed = listed;
        resolved = found;
        entries = read ∙ ap ok same;
        described = described;
        same = subst (λ l. Perm l listed) (sym e) (sort_by_name-perm listed);
        sorted = subst IsSorted (sym e) (sort_by_name-IsSorted listed);
      }

module _ (F : Fs) (server : RpcServer) where
  pub read_dir-keeps : (relative : Text) (s : F.State) → (read_dir F server relative s).1 ≡ s
  unfolding read_dir
  read_dir-keeps relative s =
      let keeps = resolve_existing-keeps F server relative s in
      elim (Result-cases (resolve_existing F server relative s).0) [
        | inr (x, e) ↦ ground arith
        | inl (path, e) ↦ elim (Result-cases (F.read_dir path s)) [
          | inr (x, f) ↦ ground (arith, keeps)
          | inl (raw, f) ↦ ground (arith, keeps, list_entries-keeps F server path s raw)
        ]
      ]
