-- ===== src/Client/Descriptor.antt =====
-- crates/netfilum-client/src/mount.rs: `build_security_descriptor` and `widestring_from_str`. The
-- Windows API and the UTF-16 of a text are the parameter `Windows`.
use netfilum.Prelude.{ℕ, ◌≡◌, arith, inl, inr, List, [], ◌∷◌, ◌++◌}
use netfilum.Prelude.Texts.{Text, Bytes, codes}
use netfilum.Prelude.Results.{ok, Run, Result-cases, ◌>>=◌}

-- The memory that the API allocates for a descriptor is read and freed by the caller.
pub record Windows : Type 1 where
  pub Heap : Type 0
  pub Pointer : Type 0
  pub encode_utf16 : Text → List ℕ
  pub convert : List ℕ → Run Heap Text (Pointer × ℕ)
  pub bytes_at : Pointer → ℕ → Heap → Bytes
  pub local_free : Pointer → Heap → Heap

module _ (W : Windows) where
  unfoldable pub widestring_from_str : Text → List ℕ
  widestring_from_str value = W.encode_utf16 value ++ 0 ∷ []

  -- The bytes are copied before the memory is freed.
  abbrev pub copied : W.Pointer × ℕ → Run W.Heap Text Bytes
  copied (raw, len) h = (ok (W.bytes_at raw len h), W.local_free raw h)

  unfoldable pub build_security_descriptor : Run W.Heap Text Bytes
  unfolding widestring_from_str
  build_security_descriptor =
      W.convert (widestring_from_str (codes "O:BAG:BAD:P(A;;FA;;;SY)(A;;FA;;;BA)(A;;FA;;;WD)"))
      >>= copied

  abbrev pub Frees : W.Heap → Bytes → Type 0
  Frees h bytes =
      (raw : W.Pointer) × (len : ℕ) × (g : W.Heap) × (W.convert
          (widestring_from_str (codes "O:BAG:BAD:P(A;;FA;;;SY)(A;;FA;;;BA)(A;;FA;;;WD)")) h
        ≡ (ok (raw, len), g))
      × (bytes ≡ W.bytes_at raw len g)
      × ((build_security_descriptor h).1 ≡ W.local_free raw g)

  -- A descriptor that was built is a copy of what the API allocated, and that memory is freed.
  pub build_security_descriptor-Frees :
      (h : W.Heap) (bytes : Bytes) → (build_security_descriptor h).0 ≡ ok bytes → Frees h bytes
  unfolding build_security_descriptor
  build_security_descriptor-Frees h bytes k =
      let wide = widestring_from_str (codes "O:BAG:BAD:P(A;;FA;;;SY)(A;;FA;;;BA)(A;;FA;;;WD)") in
      elim (Result-cases (W.convert wide h).0) [
        | inl ((raw, len), e) ↦
            (raw, len, (W.convert wide h).1, ground arith, ground arith, ground arith)
        | inr (x, e) ↦ absurd (ground arith)
      ]
