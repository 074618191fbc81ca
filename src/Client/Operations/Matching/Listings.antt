-- ===== src/Client/Operations/Matching/Listings.antt =====
-- `read_directory` of crates/netfilum-client/src/mount.rs over two servers that answer alike.
use netfilum.Prelude.{refl, Option, none, some, List, [], ◌∷◌}
use netfilum.Prelude.Texts.{Text, Bytes, codes}
use netfilum.Prelude.Results.{ok, Run, ◌>>=◌}
use netfilum.Protocol.{Request, FileAttr, DirEntry}
use netfilum.Client.Context.{Environment, fetch_attr, fetch_dir_entries}
use netfilum.Client.Operations as Operations
use netfilum.Client.Operations.{
  Opened, FileSecurity, on_path, on_mount, write_payload, write_entries, write_dir_entry, on_buffer,
  acquired, fill_buffer, write_special_dir_entry, created_kind, constrain,
}
use netfilum.Client.Operations.Matching.Runs.{then-Matches}
use netfilum.Client.Operations.Matching.{Keeps, >>=-Keeps, >>=-Matches, pure-Matches}
use netfilum.Client.Operations.Matching.Twins.{
  Twins, First, Second, view_open, AtOpen, MatchesOpen, fetch_attr-Matches, fetch_attr-Keeps,
  fetch_dir_entries-Matches, fetch_dir_entries-Keeps,
}

module _ (E : Environment) (Asks : Request → Type 0) (T : Twins Asks) (path : Text) where
  abbrev A : Environment
  A = First E Asks T

  abbrev B : Environment
  B = Second E Asks T

  -- A run that only touches the directory buffer.
  record Buffered (m : Run (Opened A) E.FspError Unit) (n : Run (Opened B) E.FspError Unit)
      : Type 0 where
    matches : MatchesOpen E Asks T path m n
    keeps : Keeps (AtOpen E Asks T path) m

  >>=-Buffered :
      (m : Run (Opened A) E.FspError Unit) (n : Run (Opened B) E.FspError Unit)
      (k : Run (Opened A) E.FspError Unit) (l : Run (Opened B) E.FspError Unit)
      → Buffered m n
      → Buffered k l
      → Buffered (m >>= λ u. k) (n >>= λ u. l)
  >>=-Buffered m n k l h i = record {
    matches =
        >>=-Matches (view_open E Asks T) (AtOpen E Asks T path) m n (λ u. k) (λ u. l) h.matches
          h.keeps (λ u. i.matches);
    keeps = >>=-Keeps (AtOpen E Asks T path) m (λ u. k) h.keeps (λ u. i.keeps);
  }

  on_buffer-Buffered :
      (m : Run E.DirBuffer E.FspError Unit) → Buffered (on_buffer A m) (on_buffer B m)
  on_buffer-Buffered m = record {
    matches = record { same = λ o h. refl; seen = λ o h. refl };
    keeps = λ o h. h;
  }

  write_entries-Buffered : (es : List DirEntry) → Buffered (write_entries A es) (write_entries B es)
  unfolding write_entries write_dir_entry
  write_entries-Buffered [] = record {
    matches = pure-Matches (view_open E Asks T) (AtOpen E Asks T path) tt;
    keeps = λ o h. h;
  }
  write_entries-Buffered (e ∷ es) =
      >>=-Buffered (on_buffer A (write_dir_entry A e)) (on_buffer B (write_dir_entry B e))
        (write_entries A es) (write_entries B es) (on_buffer-Buffered (write_dir_entry A e))
        (write_entries-Buffered es)

  abbrev dots : (G : Environment) → FileAttr → List DirEntry → Run (Opened G) G.FspError Unit
  dots G a es = on_buffer G (write_special_dir_entry G (codes ".") a) >>= λ u.
      on_buffer G (write_special_dir_entry G (codes "..") a) >>= λ u. write_entries G es

  dots-Buffered : (a : FileAttr) (es : List DirEntry) → Buffered (dots A a es) (dots B a es)
  unfolding write_special_dir_entry
  dots-Buffered a es =
      >>=-Buffered (on_buffer A (write_special_dir_entry A (codes ".") a))
        (on_buffer B (write_special_dir_entry B (codes ".") a)) _ _
        (on_buffer-Buffered (write_special_dir_entry A (codes ".") a))
        (>>=-Buffered (on_buffer A (write_special_dir_entry A (codes "..") a))
          (on_buffer B (write_special_dir_entry B (codes "..") a)) _ _
          (on_buffer-Buffered (write_special_dir_entry A (codes "..") a))
          (write_entries-Buffered es))

  fill_buffer-Buffered :
      (a : FileAttr) (es : List DirEntry) (marker : Option Text) (b : Option E.DirBuffer)
      → Buffered (fill_buffer A a es marker b) (fill_buffer B a es marker b)
  fill_buffer-Buffered a es marker none = record {
    matches = pure-Matches (view_open E Asks T) (AtOpen E Asks T path) tt;
    keeps = λ o h. h;
  }
  fill_buffer-Buffered a es (some name) (some b) = record {
    matches = record { same = λ o h. refl; seen = λ o h. refl };
    keeps = λ o h. h;
  }
  fill_buffer-Buffered a es none (some b) = record {
    matches = record {
      same = λ o h. (dots-Buffered a es).matches.same _ h;
      seen = λ o h. (dots-Buffered a es).matches.seen _ h;
    };
    keeps = λ o h. (dots-Buffered a es).keeps _ h;
  }

  abbrev filled :
      (G : Environment) → Option Text → FileAttr → List DirEntry → Run (Opened G) G.FspError Unit
  filled G marker a es o = fill_buffer G a es marker (acquired G es marker o) o

  filled-Buffered :
      (marker : Option Text) (a : FileAttr) (es : List DirEntry)
      → Buffered (filled A marker a es) (filled B marker a es)
  filled-Buffered marker a es = record {
    matches = record {
      same = λ o h. (fill_buffer-Buffered a es marker (acquired A es marker o)).matches.same o h;
      seen = λ o h. (fill_buffer-Buffered a es marker (acquired A es marker o)).matches.seen o h;
    };
    keeps = λ o h. (fill_buffer-Buffered a es marker (acquired A es marker o)).keeps o h;
  }

  abbrev answered :
      (G : Environment) → Option Text → FileAttr → List DirEntry → Run (Opened G) G.FspError Bytes
  answered G marker a es =
      filled G marker a es >>= λ u o. (ok (G.read_entries marker o.context.dir_buffer), o)

  answered-Matches :
      (marker : Option Text) (a : FileAttr) (es : List DirEntry)
      → MatchesOpen E Asks T path (answered A marker a es) (answered B marker a es)
  answered-Matches marker a es =
      >>=-Matches (view_open E Asks T) (AtOpen E Asks T path) (filled A marker a es)
        (filled B marker a es) (λ u o. (ok (E.read_entries marker o.context.dir_buffer), o))
        (λ u o. (ok (E.read_entries marker o.context.dir_buffer), o))
        (filled-Buffered marker a es).matches (filled-Buffered marker a es).keeps
        (λ u. record { same = λ o h. refl; seen = λ o h. refl })

  pub read_directory-Matches :
      (marker : Option Text)
      → Asks (Request.stat path)
      → Asks (Request.read_dir path)
      → MatchesOpen E Asks T path
          (Operations.read_directory A marker)
          (Operations.read_directory B marker)
  unfolding Operations.read_directory
  read_directory-Matches marker asked then_asked =
      then-Matches E Asks T path (fetch_attr A) (fetch_attr B)
        (λ a. on_path A (fetch_dir_entries A) >>= answered A marker a)
        (λ a. on_path B (fetch_dir_entries B) >>= answered B marker a)
        (fetch_attr-Matches E Asks T path asked) (fetch_attr-Keeps E Asks T path asked)
        λ a.
          then-Matches E Asks T path (fetch_dir_entries A) (fetch_dir_entries B)
            (answered A marker a) (answered B marker a)
            (fetch_dir_entries-Matches E Asks T path then_asked)
            (fetch_dir_entries-Keeps E Asks T path then_asked) (answered-Matches marker a)
