-- ===== src/Client/Operations/Directories.antt =====
-- What `read_directory` of crates/netfilum-client/src/mount.rs puts into the directory buffer, with the
-- server of crates/netfilum-server/src/server.rs behind it.
use netfilum.Prelude.{
  ◌+◌, ◌%◌, ◌^◌, ◌≡◌, refl, subst, arith, inl, inr, Option, none, some, true, List, [], ◌∷◌, map,
  length,
}
use netfilum.Prelude.Texts.{Text, Bytes, codes}
use netfilum.Prelude.Results.{ok, Run, Result-cases, ◌>>=◌, lift}
use netfilum.Protocol.{FileAttr, DirEntry, Request, Response}
use netfilum.Server.Fs.{Fs}
use netfilum.Server.Resolve.{RpcServer}
use netfilum.Server.Dispatch.{dispatch}
use netfilum.Server.Dispatch.Queries.{dispatch-query_keeps}
use netfilum.Server.Files.{read_dir}
use netfilum.Server.Files.Listing.{IsListing, read_dir-IsListing}
use netfilum.Client.Attributes.{FileInfo, fill_file_info}
use netfilum.Client.Context.{Environment, Mounted, fetch_attr, fetch_dir_entries, send_request}
use netfilum.Client.Served.{served}
use netfilum.Client.Operations.{
  Opened, on_buffer, write_entries, write_dir_entry, write_special_dir_entry, fill_buffer, acquired,
  read_directory,
}

-- The lines of a listing: the directory, its parent with the same attributes, and the entries.
abbrev pub lines : FileAttr → List DirEntry → List (Text × FileInfo)
lines attr entries =
    (codes ".", fill_file_info attr)
    ∷ (codes "..", fill_file_info attr)
    ∷ map (λ e. (e.name, fill_file_info e.attr)) entries

module _ (E : Environment) where
  -- The lines are written to a buffer one after another.
  abbrev pub Filled : List (Text × FileInfo) → E.DirBuffer → E.DirBuffer → Type 0
  Filled [] b c = c ≡ b
  Filled ((name, i) ∷ rest) b c =
      (n : E.EntryName) × (b' : E.DirBuffer) × (E.set_name name ≡ ok n)
      × (E.write_entry n i b ≡ (ok tt, b'))
      × Filled rest b' c

  -- The buffer is filled where `acquire` gives it, and else it is as it was.
  abbrev pub FilledFrom : List (Text × FileInfo) → Option E.DirBuffer → (b c : E.DirBuffer) → Type 0
  FilledFrom ls none b c = c ≡ b
  FilledFrom ls (some a) b c = Filled ls a c

  -- A line, and what is written behind it.
  line-Filled :
      (name : Text) (i : FileInfo) (rest : List (Text × FileInfo))
      (m : Run (Opened E) E.FspError Unit) (o : Opened E)
      → ((p : Opened E)
          → (m p).0 ≡ ok tt
          → Filled rest p.context.dir_buffer (m p).1.context.dir_buffer)
      → ((on_buffer E (lift (E.set_name name) >>= λ n. E.write_entry n i) >>= λ u. m) o).0 ≡ ok tt
      → Filled
          ((name, i) ∷ rest)
          o.context.dir_buffer
          ((on_buffer E (lift (E.set_name name) >>= λ n. E.write_entry n i) >>= λ u. m)
            o).1.context.dir_buffer
  line-Filled name i rest m o k h = elim (Result-cases (E.set_name name)) [
    | inr (x, e) ↦ absurd (ground arith)
    | inl (n, e) ↦ elim (Result-cases (E.write_entry n i o.context.dir_buffer).0) [
      | inr (x, f) ↦ absurd (ground arith)
      | inl (u, f) ↦
          let b = (E.write_entry n i o.context.dir_buffer).1 in
          let p = record o { context = record o.context { dir_buffer = b } } in
          (n, b, e, ground arith, subst (λ c. Filled rest b c) (ground arith) (k p (ground arith)))
    ]
  ]

  write_entries-Filled :
      (es : List DirEntry) (o : Opened E)
      → (write_entries E es o).0 ≡ ok tt
      → Filled
          (map (λ e. (e.name, fill_file_info e.attr)) es)
          o.context.dir_buffer
          (write_entries E es o).1.context.dir_buffer
  unfolding write_entries write_dir_entry
  write_entries-Filled [] o h = refl
  write_entries-Filled (e ∷ es) o h =
      line-Filled e.name (fill_file_info e.attr) (map (λ e. (e.name, fill_file_info e.attr)) es)
        (write_entries E es) o (write_entries-Filled es) h

  fill_buffer-Filled :
      (attr : FileAttr) (es : List DirEntry) (b : Option E.DirBuffer) (o : Opened E)
      → (fill_buffer E attr es none b o).0 ≡ ok tt
      → FilledFrom
          (lines attr es)
          b
          o.context.dir_buffer
          (fill_buffer E attr es none b o).1.context.dir_buffer
  unfolding write_special_dir_entry
  fill_buffer-Filled attr es none o h = refl
  fill_buffer-Filled attr es (some b) o h =
      let rest = map (λ e. (e.name, fill_file_info e.attr)) es in
      let special = λ (name : Text). on_buffer E (write_special_dir_entry E name attr) in
      line-Filled (codes ".") (fill_file_info attr) ((codes "..", fill_file_info attr) ∷ rest)
        (special (codes "..") >>= λ u. write_entries E es)
        (record o { context = record o.context { dir_buffer = b } })
        (λ p.
          line-Filled (codes "..") (fill_file_info attr) rest (write_entries E es) p
            (write_entries-Filled es))
        h

-- A listing from its start: `es` is what the server lists, and `buffer` what is left in the buffer.
pub record HasRead (E : Environment) (F : Fs) (server : RpcServer) (o : Opened (served E F server))
    (bytes : Bytes) (buffer : E.DirBuffer) : Type 0 where
  pub attr : FileAttr
  pub entries : List DirEntry
  pub stat :
      (dispatch F server (Request.stat o.context.path) o.mounted.world).0 ≡ ok (Response.attr attr)
  pub listed : IsListing F server o.context.path o.mounted.world entries
  pub filled :
      FilledFrom E
        (lines attr entries)
        (E.acquire true ((length entries + 2) % 2 ^ 32) o.context.dir_buffer)
        o.context.dir_buffer
        buffer
  pub read : bytes ≡ E.read_entries none buffer

module _ (E : Environment) (F : Fs) (server : RpcServer) where
  abbrev S : Environment
  S = served E F server

  fetch_attr-eq_ok :
      (path : Text) (s : Mounted S) (a : FileAttr)
      → (fetch_attr S path s).0 ≡ ok a
      → ((dispatch F server (Request.stat path) s.world).0 ≡ ok (Response.attr a))
        × ((fetch_attr S path s).1 ≡ s)
  unfolding fetch_attr send_request
  fetch_attr-eq_ok path s a h =
      ground (arith, dispatch-query_keeps F server s.world (Request.stat path) refl)

  fetch_dir_entries-eq_ok :
      (path : Text) (s : Mounted S) (es : List DirEntry)
      → (fetch_dir_entries S path s).0 ≡ ok es
      → ((read_dir F server path s.world).0 ≡ ok es) × ((fetch_dir_entries S path s).1 ≡ s)
  unfolding fetch_dir_entries send_request dispatch
  fetch_dir_entries-eq_ok path s es h =
      ground (arith, dispatch-query_keeps F server s.world (Request.read_dir path) refl)

  -- A listing from the start that succeeds has asked for the buffer, for two more lines than the server
  -- lists entries. Where the buffer could be acquired, it is filled with the directory itself, its
  -- parent, and after them the entries that the server lists, each with its name and attributes, in
  -- the order of the names; where it could not, which the listing does not report, the buffer is as it
  -- was. The bytes are those of the buffer.
  pub read_directory-HasRead :
      (o : Opened S) (bytes : Bytes)
      → (read_directory S none o).0 ≡ ok bytes
      → HasRead E F server o bytes (read_directory S none o).1.context.dir_buffer
  unfolding read_directory
  read_directory-HasRead o bytes h = elim (Result-cases (fetch_attr S o.context.path o.mounted).0) [
    | inr (x, e) ↦ absurd (ground arith)
    | inl (a, e) ↦
        let (stat, same) = fetch_attr-eq_ok o.context.path o.mounted a e in
        elim (Result-cases (fetch_dir_entries S o.context.path o.mounted).0) [
          | inr (x, f) ↦ absurd (ground arith)
          | inl (es, f) ↦
              let (listed, kept) = fetch_dir_entries-eq_ok o.context.path o.mounted es f in
              let b = acquired S es none o in
              elim (Result-cases (fill_buffer S a es none b o).0) [
                | inr (x, g) ↦ absurd (ground arith)
                | inl (u, g) ↦ record {
                  attr = a;
                  entries = es;
                  stat = stat;
                  listed = read_dir-IsListing F server o.context.path o.mounted.world es listed;
                  filled =
                      subst (λ c. FilledFrom S (lines a es) b o.context.dir_buffer c) (ground arith)
                        (fill_buffer-Filled S a es b o g);
                  read = ground arith;
                }
              ]
        ]
  ]
