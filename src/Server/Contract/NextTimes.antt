-- ===== src/Server/Contract/NextTimes.antt =====
-- The times that `RpcServer::set_basic_info` of crates/netfilum-server/src/server.rs sets.
use netfilum.Prelude.{◌≡◌, refl, ap, ◌∙◌, arith, inl, inr, true, false, Option, none, some, ◌||◌}
use netfilum.Prelude.Results.{ok, Result-cases}
use netfilum.Protocol.{FileTimeValue}
use netfilum.Paths.{PathBuf}
use netfilum.Server.Fs.{Fs, Metadata, SystemTime}
use netfilum.Server.Fs.View.{View}
use netfilum.Server.Times.{file_time_to_filetime}
use netfilum.Server.Resolve.{RpcServer}
use netfilum.Server.Attributes.{current_access_time, current_modified_time}
use netfilum.Server.Files.{chosen_time, is_some}
use netfilum.Server.Contract.{HasTimes, known, first_known, current, next_time}

module _ (F : Fs) (V : View F) (server : RpcServer) where
  pub current_access_time-eq_ok :
      (p : PathBuf) (s t : F.State) (a : F.FileTime)
      → current_access_time F p s ≡ (ok a, t)
      → (m : Metadata) × (F.metadata p s ≡ ok m) × (t ≡ s) × (a ≡ current F V server m.accessed s)
  unfolding current_access_time file_time_to_filetime
  current_access_time-eq_ok p s t a h = elim (Result-cases (F.metadata p s)) [
    | inr (x, e) ↦ absurd (ground arith)
    | inl (m, e) ↦ (m, e, ground arith, ground arith)
  ]

  pub current_modified_time-eq_ok :
      (p : PathBuf) (s t : F.State) (a : F.FileTime)
      → current_modified_time F p s ≡ (ok a, t)
      → (m : Metadata) × (F.metadata p s ≡ ok m) × (t ≡ s) × (a ≡ current F V server m.modified s)
  unfolding current_modified_time file_time_to_filetime
  current_modified_time-eq_ok p s t a h = elim (Result-cases (F.metadata p s)) [
    | inr (x, e) ↦ absurd (ground arith)
    | inl (m, e) ↦ (m, e, ground arith, ground arith)
  ]

  chosen_time-known :
      (named : Option FileTimeValue) (x : F.FileTime)
      → chosen_time F named x ≡ first_known F V server (known F V server named) x
  unfolding file_time_to_filetime
  chosen_time-known none x = refl
  chosen_time-known (some v) x = ground arith

  -- The time that is set: the one that is named, and else the current one.
  pub chosen_time-next_time :
      (named : Option FileTimeValue) (stored : Option SystemTime) (s : F.State) (x : F.FileTime)
      → x ≡ current F V server stored s
      → chosen_time F named x ≡ next_time F V server named stored s
  chosen_time-next_time named stored s x h =
      chosen_time-known named x ∙ ap (first_known F V server (known F V server named)) h

  pub none_named :
      (p : PathBuf) (accessed modified : Option FileTimeValue) (u t : F.State)
      → (is_some accessed || is_some modified) ≡ false
      → t ≡ u
      → HasTimes F V server p accessed modified u t
  none_named p none none u t h left = left
  none_named p none (some y) u t h left = absurd (ground arith)
  none_named p (some x) modified u t h left = absurd (ground arith)

  pub one_named :
      (p : PathBuf) (accessed modified : Option FileTimeValue) (u t : F.State) (m : Metadata)
      → (is_some accessed || is_some modified) ≡ true
      → F.metadata p u ≡ ok m
      → t
        ≡ (F.set_file_times p
            (next_time F V server accessed m.accessed u)
            (next_time F V server modified m.modified u)
            u).1
      → HasTimes F V server p accessed modified u t
  one_named p none none u t m h found left = absurd (ground arith)
  one_named p none (some y) u t m h found left = (m, found, left)
  one_named p (some x) none u t m h found left = (m, found, left)
  one_named p (some x) (some y) u t m h found left = (m, found, left)
