-- ===== src/Server/Contract/BasicInfo.antt =====
-- `RpcServer::set_basic_info` of crates/netfilum-server/src/server.rs keeps its contract.
use Prim.Native.Nat.{bit_and}
use netfilum.Prelude.{
  ℕ, ◌≡◌, refl, ap, sym, ◌∙◌, subst, arith, inl, inr, Bool, true, false, Bool-cases, Option, none,
  some, ◌||◌, if◌then◌else◌,
}
use netfilum.Prelude.Texts.{Text}
use netfilum.Prelude.Results.{ok, Result-cases, Run, pure, ◌>>=◌, ◌>>◌}
use netfilum.Protocol.{FileAttr, BasicInfoUpdate, Response, RpcError}
use netfilum.Paths.{PathBuf}
use netfilum.Server.Fs.{Fs, Metadata}
use netfilum.Server.Fs.View.{View, IsFileSystem, SameBytes, HasWriteBits}
use netfilum.Server.Resolve.{RpcServer, resolve_existing}
use netfilum.Server.Attributes.{
  io, attr_for_path, attr_of_metadata, is_readonly, readonly_mode, set_readonly,
  current_access_time, current_modified_time,
}
use netfilum.Server.Files as Files
use netfilum.Server.Files.{chosen_time, is_some}
use netfilum.Server.Contract.{IsAttr, HasBasicInfo, IsMarking, HasTimes, current, next_time}
use netfilum.Server.Resolve.Laws.{resolve_existing-keeps}
use netfilum.Server.Contract.NextTimes.{
  current_access_time-eq_ok, current_modified_time-eq_ok, chosen_time-next_time, none_named,
  one_named,
}
use netfilum.Server.Contract.Steps.{attr_for_path-eq_ok}
use netfilum.Server.Contract.Attributes.{is_readonly-readonly_mode}

module _ (F : Fs) (V : View F) (L : IsFileSystem F V) (server : RpcServer) where
  -- What stands at the path is read-only exactly where the update says so.
  abbrev IsMarked : PathBuf → F.State → Option Bool → Type 0
  IsMarked p t update =
      (b : Bool)
      → update ≡ some b
      → (m : Metadata) × (F.metadata p t ≡ ok m) × (is_readonly m.mode ≡ b)

  same_bits : (m n : ℕ) → bit_and m 0o222 ≡ bit_and n 0o222 → is_readonly m ≡ is_readonly n
  unfolding is_readonly
  same_bits m n h = ground arith

  marked :
      (p : PathBuf) (b : Bool) (s t : F.State) (m : Metadata)
      → F.metadata p s ≡ ok m
      → t ≡ (F.set_permissions p (readonly_mode m.mode b) s).1
      → IsMarking F V server p (some b) s t
  unfolding readonly_mode
  marked p true s t m found left = (m, found, left)
  marked p false s t m found left = (m, found, left)

  update_readonly-IsMarked :
      (p : PathBuf) (update : Option Bool) (s t : F.State)
      → Files.update_readonly F server p update s ≡ (ok tt, t)
      → IsMarked p t update × SameBytes F V s t p × IsMarking F V server p update s t
  unfolding Files.update_readonly set_readonly
  update_readonly-IsMarked p none s t h =
      let same : s ≡ t = ground arith in
      (λ b e. absurd (ground arith), rw (← same) (refl, λ i. refl), sym same)
  update_readonly-IsMarked p (some b) s t h = elim (Result-cases (F.metadata p s)) [
    | inr (x, e) ↦ absurd (ground arith)
    | inl (m, e) ↦
        let mode = readonly_mode m.mode b in
        let left : (F.set_permissions p mode s).1 ≡ t = ground arith in
        let (bits, same) = L.set_permissions p mode s (ground arith) in
        let (n, found, eq) : HasWriteBits F V p t mode =
          subst (λ u. HasWriteBits F V p u mode) left bits in
        (
          λ c k. (
            n,
            found,
            same_bits n.mode mode eq ∙ is_readonly-readonly_mode m.mode b ∙ ground arith,
          ),
          subst (λ u. SameBytes F V s u p) left same,
          marked p b s t m e (sym left),
        )
  ]

  -- At least one time is named, and both are set.
  times_named :
      (p : PathBuf) (update : BasicInfoUpdate) (atime mtime : F.FileTime) (s t : F.State)
      → (m : Metadata) → (is_some update.last_access_time || is_some update.last_write_time) ≡ true
      → F.metadata p s ≡ ok m
      → atime ≡ current F V server m.accessed s
      → mtime ≡ current F V server m.modified s
      → t
        ≡ (F.set_file_times p
            (chosen_time F update.last_access_time atime)
            (chosen_time F update.last_write_time mtime)
            s).1
      → HasTimes F V server p update.last_access_time update.last_write_time s t
  times_named p update atime mtime s t m chosen found at_is mt_is left =
      one_named F V server p update.last_access_time update.last_write_time s t m chosen found (
        left
        ∙ ap (λ x. (F.set_file_times p x (chosen_time F update.last_write_time mtime) s).1)
            (chosen_time-next_time F V server update.last_access_time m.accessed s atime at_is)
        ∙ ap
            (λ y.
              (F.set_file_times p (next_time F V server update.last_access_time m.accessed s) y
                s).1)
            (chosen_time-next_time F V server update.last_write_time m.modified s mtime mt_is))

  times-keep :
      (p : PathBuf) (a b : F.FileTime) (s : F.State) (m : Metadata) (update : Option Bool)
      → F.metadata p s ≡ ok m
      → (F.set_file_times p a b s).0 ≡ ok tt
      → IsMarked p s update
      → IsMarked p (F.set_file_times p a b s).1 update
        × SameBytes F V s (F.set_file_times p a b s).1 p
  times-keep p a b s m update found h marked =
      let ((n, left, eq), same) = L.set_file_times p a b s m found h in
      (
        λ c k.
            let (m', found', is) = marked c k in
            let m-eq : m' ≡ m = ground arith in
            (n, left, same_bits n.mode m.mode eq ∙ ap (λ x. is_readonly x.mode) (sym m-eq) ∙ is),
        same,
      )

  SameBytes-trans :
      (p : PathBuf) (s t u : F.State)
      → SameBytes F V s t p
      → SameBytes F V t u p
      → SameBytes F V s u p
  SameBytes-trans p s t u h k = (k.0 ∙ h.0, λ i. k.1 i ∙ h.1 i)

  answered :
      (p : PathBuf) (t u : F.State) (a : FileAttr) (update : Option Bool)
      → IsMarked p t update
      → attr_for_path F p t ≡ (ok a, u)
      → IsAttr F V server p u a × ((b : Bool) → update ≡ some b → a.readonly ≡ b) × (u ≡ t)
  unfolding attr_of_metadata
  answered p t u a update marked h =
      let (m, found, e, left) = attr_for_path-eq_ok F server p t u a h in
      (
        (m, rw left found, e),
        λ b k.
            let (m', found', is) = marked b k in
            let m-eq : m' ≡ m = ground arith in
            ap (λ x. x.readonly) e ∙ ap (λ x. is_readonly x.mode) (sym m-eq) ∙ is,
        left,
      )

  -- What follows `update_readonly`.
  abbrev finish : PathBuf → BasicInfoUpdate → Run F.State RpcError FileAttr
  finish p update = do
    atime ← current_access_time F p
    mtime ← current_modified_time F p
    if is_some update.last_access_time || is_some update.last_write_time
        then io F (
            F.set_file_times p (chosen_time F update.last_access_time atime)
              (chosen_time F update.last_write_time mtime))
        else pure tt
    attr_for_path F p

  finished :
      (p : PathBuf) (update : BasicInfoUpdate) (s t : F.State) (a : FileAttr)
      → finish p update s ≡ (ok a, t)
      → IsMarked p s update.readonly
      → IsAttr F V server p t a
        × ((b : Bool) → update.readonly ≡ some b → a.readonly ≡ b)
        × SameBytes F V s t p
        × HasTimes F V server p update.last_access_time update.last_write_time s t
  finished p update s t a h marked = elim (Result-cases (current_access_time F p s).0) [
    | inr (x, e) ↦ absurd (ground arith)
    | inl (atime, e) ↦
        let (m, found, at_same, at_is) =
          current_access_time-eq_ok F V server p s (current_access_time F p s).1 atime
            (ground arith) in
        elim (Result-cases (current_modified_time F p s).0) [
          | inr (x, k) ↦ absurd (ground (arith))
          | inl (mtime, k) ↦
              let (m', found', mt_same, mt_is) =
                current_modified_time-eq_ok F V server p s (current_modified_time F p s).1 mtime
                  (ground arith) in
              elim (Bool-cases
                (is_some update.last_access_time || is_some update.last_write_time)) [
                  | inr kept ↦
                      let (b, eq, left) =
                        answered p s t a update.readonly marked (ground (arith)) in
                      (
                        b,
                        eq,
                        rw left (refl, λ i. refl),
                        none_named F V server p update.last_access_time update.last_write_time s t
                            kept left,
                      )
                  | inl chosen ↦
                      let times =
                        F.set_file_times p (chosen_time F update.last_access_time atime)
                          (chosen_time F update.last_write_time mtime) s in
                      elim (Result-cases times.0) [
                        | inr (x, w) ↦ absurd (ground (arith))
                        | inl (u, w) ↦
                            let (marked', same) =
                              times-keep p (chosen_time F update.last_access_time atime)
                                (chosen_time F update.last_write_time mtime) s m update.readonly
                                found (ground arith) marked in
                            let (b, eq, left) =
                              answered p times.1 t a update.readonly marked' (ground (arith)) in
                            let m-eq : m' ≡ m = ground arith in
                            (
                              b,
                              eq,
                              rw left same,
                              times_named p update atime mtime s t m chosen found at_is
                                  (mt_is ∙ ap (λ x. current F V server x.modified s) m-eq) left,
                            )
                      ]
                ]
        ]
  ]

  pub set_basic_info-HasBasicInfo :
      (path : Text) (update : BasicInfoUpdate) (s t : F.State) (a : FileAttr)
      → Files.set_basic_info F server path update s ≡ (ok a, t)
      → HasBasicInfo F V server path update s (Response.attr a) t
  unfolding Files.set_basic_info
  set_basic_info-HasBasicInfo path update s t a h =
      let keeps = resolve_existing-keeps F server path s in
      elim (Result-cases (resolve_existing F server path s).0) [
        | inr (x, e) ↦ absurd (ground (arith, keeps))
        | inl (p, e) ↦
            let marking = Files.update_readonly F server p update.readonly s in
            elim (Result-cases marking.0) [
              | inr (x, k) ↦ absurd (ground (arith, keeps))
              | inl (u, k) ↦
                  let (marked, same, marking_is) =
                    update_readonly-IsMarked p update.readonly s marking.1 (ground arith) in
                  let (b, eq, v, times) =
                    finished p update marking.1 t a (ground (arith, keeps)) marked in
                  (
                    p,
                    a,
                    e,
                    refl,
                    b,
                    eq,
                    SameBytes-trans p s marking.1 t same v,
                    (marking.1, marking_is, times),
                  )
            ]
      ]
