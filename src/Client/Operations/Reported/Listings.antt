-- ===== src/Client/Operations/Reported/Listings.antt =====
-- The errors of `read_directory` of crates/netfilum-client/src/mount.rs.
use netfilum.Prelude.{arith, Option, none, some, List, [], ◌∷◌}
use netfilum.Prelude.Texts.{Text, codes}
use netfilum.Prelude.Results.{◌>>=◌}
use netfilum.Protocol.{Request, FileAttr, DirEntry}
use netfilum.Server.Fs.{Fs}
use netfilum.Server.Resolve.{RpcServer}
use netfilum.Client.Attributes.{fill_file_info}
use netfilum.Client.Context.{Environment}
use netfilum.Client.Served.{served}
use netfilum.Client.Operations as Operations
use netfilum.Client.Operations.{
  Opened, FileSecurity, on_path, on_mount, write_payload, write_entries, write_dir_entry, on_buffer,
  acquired, fill_buffer, write_special_dir_entry, created_kind, constrain,
}
use netfilum.Client.Operations.Reported.{fetch_dir_entries-Reports}
use netfilum.Client.Operations.Reported.Opens.{
  Opens, pure-Opens, >>=-Opens, on_path-Opens, on_buffer-Opens,
}
use netfilum.Client.Operations.Reported.Runs.{attr_read}

module _ (E : Environment) (F : Fs) (server : RpcServer) (Asked : Request → Type 0) where
  abbrev S : Environment
  S = served E F server

  module _ (path : Text) where
    write_entries-Opens :
        Asked (Request.read_dir path)
        → (es : List DirEntry) → Opens E F server path Asked (write_entries S es)
    unfolding write_entries write_dir_entry
    write_entries-Opens listed [] = pure-Opens E F server path Asked tt
    write_entries-Opens listed (e ∷ es) =
        >>=-Opens E F server path Asked _ _
          (on_buffer-Opens E F server path Asked e.name (fill_file_info e.attr) listed)
          (λ u. write_entries-Opens listed es)

    dots-Opens :
        Asked (Request.read_dir path)
        → (a : FileAttr) (es : List DirEntry)
        → Opens E F server path Asked (
            on_buffer S (write_special_dir_entry S (codes ".") a) >>= λ u.
            on_buffer S (write_special_dir_entry S (codes "..") a) >>= λ u. write_entries S es)
    unfolding write_special_dir_entry
    dots-Opens listed a es =
        >>=-Opens E F server path Asked _ _
          (on_buffer-Opens E F server path Asked (codes ".") (fill_file_info a) listed)
          (λ u.
            >>=-Opens E F server path Asked _ _
              (on_buffer-Opens E F server path Asked (codes "..") (fill_file_info a) listed)
              (λ u. write_entries-Opens listed es))

    fill_buffer-Opens :
        Asked (Request.read_dir path)
        → (a : FileAttr) (es : List DirEntry) (marker : Option Text) (b : Option E.DirBuffer)
        → Opens E F server path Asked (fill_buffer S a es marker b)
    fill_buffer-Opens listed a es marker none = pure-Opens E F server path Asked tt
    fill_buffer-Opens listed a es (some name) (some b) = record {
      keeps = λ o h. h;
      reports = λ o h e k. absurd (ground arith);
    }
    fill_buffer-Opens listed a es none (some b) = record {
      keeps = λ o h. (dots-Opens listed a es).keeps _ h;
      reports = λ o h e k. (dots-Opens listed a es).reports _ h e k;
    }

    pub read_directory-Opens :
        (marker : Option Text)
        → Asked (Request.stat path)
        → Asked (Request.read_dir path)
        → Opens E F server path Asked (Operations.read_directory S marker)
    unfolding Operations.read_directory
    read_directory-Opens marker asked then_asked =
        >>=-Opens E F server path Asked _ _ (attr_read E F server Asked path asked) λ a.
          >>=-Opens E F server path Asked _ _
            (on_path-Opens E F server path Asked _
              (fetch_dir_entries-Reports E F server Asked path then_asked))
            λ es.
              >>=-Opens E F server path Asked
                (λ o. fill_buffer S a es marker (acquired S es marker o) o) _
                (record {
                  keeps = λ o h.
                      (fill_buffer-Opens then_asked a es marker (acquired S es marker o)).keeps o h;
                  reports = λ o h e k.
                      (fill_buffer-Opens then_asked a es marker (acquired S es marker o)).reports o
                        h e k;
                })
                (λ u. record { keeps = λ o h. h; reports = λ o h e k. absurd (ground arith) })
