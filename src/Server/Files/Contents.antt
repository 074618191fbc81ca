-- ===== src/Server/Files/Contents.antt =====
-- `RpcServer::read_file` and `RpcServer::write_file` of crates/netfilum-server/src/server.rs: the
-- bytes that a request reads and writes, over an operating system that keeps `IsFileSystem`.
use netfilum.Prelude.{
  ℕ, ◌≤◌, ◌%◌, ◌^◌, ◌≡◌, refl, subst, ◌∙◌, ap, arith, inl, inr, Bool, true, false, some,
}
use netfilum.Prelude.{length, take, drop, if◌then◌else◌}
use netfilum.Prelude.Texts.{Text, Bytes}
use netfilum.Prelude.Results.{ok, Result-cases}
use netfilum.Protocol.{Response, FileAttr}
use netfilum.Paths.{PathBuf}
use netfilum.Server.Fs.{Fs, start}
use netfilum.Server.Fs.View.{
  Written, Written-Same, View, IsFileSystem, Same, Same-trans, take-drop-overwrite,
}
use netfilum.Server.Attributes.{attr_for_path}
use netfilum.Server.Resolve.{RpcServer, resolve_existing}
use netfilum.Server.Resolve.Laws.{resolve_existing-keeps, resolve_existing-joined}
use netfilum.Server.Attributes.Laws.{attr_for_path-keeps}
use netfilum.Server.Files.{
  write_position, read_only, read_at, write_at, read_write, read_file, write_file,
}

module _ (F : Fs) (V : View F) (L : IsFileSystem F V) (server : RpcServer) where
  read_at-content :
      (path : PathBuf) (offset len : ℕ) (s : F.State) (bytes : Bytes)
      → (read_at F server path offset len s).0 ≡ ok bytes
      → (i : ℕ) × (V.inode path s ≡ some i)
        × (bytes ≡ take (length bytes) (drop offset (V.content i s)))
        × (length bytes ≤ len)
        × Same F V s (read_at F server path offset len s).1
  unfolding read_at
  read_at-content path offset len s bytes h = elim (Result-cases (F.open_file read_only path s).0) [
    | inr (x, e) ↦ absurd (ground arith)
    | inl (f, e) ↦
        let s1 = (F.open_file read_only path s).1 in
        elim (Result-cases (F.seek (start offset) f s1).0) [
          | inr (x, k) ↦ absurd (ground arith)
          | inl (g, k) ↦
              let s2 = (F.seek (start offset) f s1).1 in
              let o = L.open_file read_only path s f refl e in
              let m = L.seek_start offset f s1 g k in
              let r = L.read len g s2 bytes (ground arith) in
              let held = m.2.1 (V.number g) ∙ o.2.1 (V.number g) ∙ ap (λ i. V.content i s) m.0 in
              let read_state = (F.read len g s2).1 in
              let same =
                Same-trans F V s s1 read_state o.2 (Same-trans F V s1 s2 read_state m.2 r.2) in
              (
                V.number f,
                o.0,
                rw (m.1, held) at r.0,
                r.1,
                subst (λ t. Same F V s t) (ground arith) same,
              )
        ]
  ]

  -- The path stands for a file, the bytes are what it holds from the offset on, and nothing changed.
  abbrev pub HasRead : Text → ℕ → ℕ → F.State → Bytes → Type 0
  HasRead relative offset len s bytes =
      (path : PathBuf) × (i : ℕ) × ((resolve_existing F server relative s).0 ≡ ok path)
      × (V.inode path s ≡ some i)
      × (bytes ≡ take (length bytes) (drop offset (V.content i s)))
      × (length bytes ≤ len)
      × Same F V s (read_file F server relative offset len s).1

  -- Where `read_file` returns bytes, the path stands for a file, the bytes are what the file holds
  -- from the offset on, at most as many as asked for, and every file keeps its bytes.
  pub read_file-content :
      (relative : Text) (offset len : ℕ) (s : F.State) (bytes : Bytes)
      → (read_file F server relative offset len s).0 ≡ ok bytes
      → HasRead relative offset len s bytes
  unfolding read_file
  read_file-content relative offset len s bytes h =
      let keeps = resolve_existing-keeps F server relative s in
      elim (Result-cases (resolve_existing F server relative s).0) [
        | inr (x, e) ↦ absurd (ground arith)
        | inl (path, e) ↦
            let r = read_at-content path offset len s bytes (ground (arith, keeps)) in
            (path, r.0, e, r.1, r.2, r.3, subst (λ t. Same F V s t) (ground (arith, keeps)) r.4)
      ]

  -- Where a write goes: the end of the file, or the offset of the request.
  abbrev pub place : ℕ → Bool → Bytes → ℕ
  place offset write_to_eof c = if write_to_eof then length c else offset

  seek-place :
      (offset : ℕ) (eof : Bool) (f : F.File) (s : F.State) (g : F.File)
      → (F.seek (write_position F server offset eof) f s).0 ≡ ok g
      → (V.number g ≡ V.number f)
        × (V.position g ≡ place offset eof (V.content (V.number f) s))
        × Same F V s (F.seek (write_position F server offset eof) f s).1
  seek-place offset true f s g h = L.seek_end f s g h
  seek-place offset false f s g h = L.seek_start offset f s g h

  write_at-content :
      (path : PathBuf) (offset : ℕ) (eof : Bool) (d : Bytes) (s : F.State)
      → (write_at F server path (write_position F server offset eof) d s).0 ≡ ok tt
      → (i : ℕ) × (V.inode path s ≡ some i)
        × Written F V s
            (write_at F server path (write_position F server offset eof) d s).1
            i
            (place offset eof (V.content i s))
            d
  unfolding write_at
  write_at-content path offset eof d s h =
      let seek = write_position F server offset eof in
      elim (Result-cases (F.open_file read_write path s).0) [
        | inr (x, e) ↦ absurd (ground arith)
        | inl (f, e) ↦
            let s1 = (F.open_file read_write path s).1 in
            elim (Result-cases (F.seek seek f s1).0) [
              | inr (x, k) ↦ absurd (ground arith)
              | inl (g, k) ↦
                  let s2 = (F.seek seek f s1).1 in
                  elim (Result-cases (F.write_all d g s2).0) [
                    | inr (x, w) ↦ absurd (ground arith)
                    | inl (a, w) ↦
                        let s3 = (F.write_all d g s2).1 in
                        let o = L.open_file read_write path s f refl e in
                        let m = seek-place offset eof f s1 g k in
                        let r = L.write_all d g s2 a w in
                        let z = L.flush a s3 (ground arith) in
                        let same = Same-trans F V s s1 s2 o.2 m.2 in
                        let u = (F.flush a s3).1 in
                        let at_g =
                          Written-Same F V s s2 s3 u (V.number g) (V.position g) d same r z in
                        let at_f = subst (λ i. Written F V s u i (V.position g) d) m.0 at_g in
                        let at_place =
                          subst (λ n. Written F V s u (V.number f) n d)
                            (m.1 ∙ ap (place offset eof) (o.2.1 (V.number f))) at_f in
                        (
                          V.number f,
                          o.0,
                          subst
                              (λ t.
                                Written F V s t (V.number f)
                                  (place offset eof (V.content (V.number f) s)) d)
                              (ground arith) at_place,
                        )
                  ]
            ]
      ]

  -- What a write leaves behind.
  abbrev pub HasWritten : Text → ℕ → Bytes → Bool → F.State → Response → Type 0
  HasWritten relative offset d eof s r =
      (path : PathBuf) × (i : ℕ) × (attr : FileAttr) × ((resolve_existing F server relative s).0
        ≡ ok path)
      × (V.inode path s ≡ some i)
      × (r ≡ Response.write_result (length d % 2 ^ 32) attr)
      × ((attr_for_path F path (write_file F server relative offset d eof s).1).0 ≡ ok attr)
      × Written F V s (write_file F server relative offset d eof s).1 i
          (place offset eof (V.content i s)) d

  -- Where `write_file` returns a response, the path stands for a file that now holds the data of the
  -- request at its offset, or at its end if the request says so; no other file has changed and no
  -- path stands for another file; and the response has the number of bytes, modulo 2 ^ 32, with
  -- the attributes that the path has after the write.
  pub write_file-content :
      (relative : Text) (offset : ℕ) (d : Bytes) (eof : Bool) (s : F.State) (r : Response)
      → (write_file F server relative offset d eof s).0 ≡ ok r
      → HasWritten relative offset d eof s r
  unfolding write_file
  write_file-content relative offset d eof s r h =
      let keeps = resolve_existing-keeps F server relative s in
      elim (Result-cases (resolve_existing F server relative s).0) [
        | inr (x, e) ↦ absurd (ground arith)
        | inl (path, e) ↦
            let wrote = write_at F server path (write_position F server offset eof) d s in
            elim (Result-cases wrote.0) [
              | inr (x, w) ↦ absurd (ground (arith, keeps))
              | inl (u, w) ↦ elim (Result-cases (attr_for_path F path wrote.1).0) [
                | inr (x, a) ↦ absurd (ground (arith, keeps))
                | inl (attr, a) ↦
                    let c = write_at-content path offset eof d s w in
                    let same = attr_for_path-keeps F path wrote.1 in
                    let left : wrote.1 ≡ (write_file F server relative offset d eof s).1 =
                      ground (arith, keeps) in
                    (
                      path,
                      c.0,
                      attr,
                      e,
                      c.1,
                      ground (arith, keeps),
                      subst (λ t. (attr_for_path F path t).0 ≡ ok attr) left a,
                      subst (λ t. Written F V s t c.0 (place offset eof (V.content c.0 s)) d) left
                          c.2,
                    )
              ]
            ]
      ]

  pub same_path :
      (relative : Text) (s t : F.State) (p q : PathBuf)
      → (resolve_existing F server relative s).0 ≡ ok p
      → (resolve_existing F server relative t).0 ≡ ok q
      → p ≡ q
  same_path relative s t p q h k = ground (
    arith,
    resolve_existing-joined F server relative s p h,
    resolve_existing-joined F server relative t q k,
  )

  -- What a request writes at an offset is what the next request reads there: where both succeed, the
  -- bytes that are read, at most as many as were written, are the first of the written ones.
  pub read_file-write_file :
      (relative : Text) (offset len : ℕ) (d bytes : Bytes) (s : F.State) (r : Response)
      → (write_file F server relative offset d false s).0 ≡ ok r
      → len ≤ length d
      → (read_file F server relative offset len (write_file F server relative offset d false s).1).0
        ≡ ok bytes
      → (bytes ≡ take (length bytes) d) × (length bytes ≤ len)
  read_file-write_file relative offset len d bytes s r wrote bound got =
      let t = (write_file F server relative offset d false s).1 in
      let (p, i, attr, found, number, answer, queried, w) =
        write_file-content relative offset d false s r wrote in
      let (q, j, found', number', held, short, same) =
        read_file-content relative offset len t bytes got in
      let p-eq = same_path relative s t p q found found' in
      let number-eq : V.inode q t ≡ some i = rw (← p-eq) (w.2 p ∙ number) in
      let j-eq : j ≡ i = ground arith in
      let held-eq = held ∙ ap (λ k. take (length bytes) (drop offset (V.content k t))) j-eq in
      let written-eq = held-eq ∙ ap (λ c. take (length bytes) (drop offset c)) w.0 in
      (
        written-eq ∙ take-drop-overwrite offset d (V.content i s) (length bytes) (omega arith),
        short,
      )
