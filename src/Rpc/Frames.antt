-- ===== src/Rpc/Frames.antt =====
-- The frames of src/rpc.rs: the length in front, and the sealed bytes behind it.
use netfilum.Prelude.{ℕ, ◌<◌, ◌^◌, ◌≡◌, ap, sym, ◌∙◌, arith, ◌++◌, length, take, drop}
use netfilum.Prelude.{inl, inr, take-append_exact, drop-append_exact, length-append}
use netfilum.Prelude.Texts.{Bytes}
use netfilum.Prelude.Results.{ok, Result-cases}
use netfilum.Rpc.{Codec, Crypto, nonce_len, to_le_bytes, from_le_bytes, encrypt, decrypt, seal}

-- What the program relies on: a message decodes to what was encoded, and a ciphertext decrypts to
-- the plaintext under the key and the nonce that it was made with.
pub record IsCodec {T : Type 0} (codec : Codec T) : Type 0 where
  pub decodes : (v : T) (b : Bytes) → codec.to_allocvec v ≡ ok b → codec.from_bytes b ≡ ok v

pub record IsCrypto (C : Crypto) : Type 0 where
  pub decrypts :
      (c : C.Cipher) (nonce plain sealed : Bytes)
      → C.encrypt c nonce plain ≡ ok sealed
      → C.decrypt c nonce sealed ≡ ok plain

-- A message in its frame.
unfoldable pub frame : Bytes → Bytes
frame b = to_le_bytes (length b) ++ b

-- A length of a `u32` is read as it was written.
pub from_le_bytes-to_le_bytes : (n : ℕ) → n < 2 ^ 32 → from_le_bytes (to_le_bytes n) ≡ n
from_le_bytes-to_le_bytes n h = omega arith

module _ (C : Crypto) (L : IsCrypto C) where
  -- What `encrypt` returns, `decrypt` takes back, for a nonce of the length that the frame expects.
  pub decrypt-encrypt :
      (key nonce plain sealed : Bytes)
      → length nonce ≡ nonce_len
      → encrypt C key nonce plain ≡ ok sealed
      → decrypt C key sealed ≡ ok plain
  unfolding encrypt decrypt
  decrypt-encrypt key nonce plain sealed n h = elim (Result-cases (C.new_from_slice key)) [
    | inr (x, e) ↦ absurd (ground arith)
    | inl (c, e) ↦ elim (Result-cases (C.encrypt c nonce plain)) [
      | inr (x, f) ↦ absurd (ground arith)
      | inl (t, f) ↦
          let split : sealed ≡ nonce ++ t = ground arith in
          let takes : take nonce_len (nonce ++ t) ≡ nonce =
            ap (λ k. take k (nonce ++ t)) (sym n) ∙ take-append_exact nonce t in
          let drops : drop nonce_len (nonce ++ t) ≡ t =
            ap (λ k. drop k (nonce ++ t)) (sym n) ∙ drop-append_exact nonce t in
          ground (arith, takes, drops, length-append nonce t, L.decrypts c nonce plain t f)
    ]
  ]

  pub seal-eq_ok :
      {T : Type 0} (codec : Codec T)
      → IsCodec codec
      → (key nonce : Bytes) (v : T) (sealed : Bytes) → length nonce ≡ nonce_len
      → seal C codec key nonce v ≡ ok sealed
      → (length sealed < 2 ^ 32)
        × (plain : Bytes) × (decrypt C key sealed ≡ ok plain)
        × (codec.from_bytes plain ≡ ok v)
  unfolding seal
  seal-eq_ok codec D key nonce v sealed n h = elim (Result-cases (codec.to_allocvec v)) [
    | inr (x, e) ↦ absurd (ground arith)
    | inl (plain, e) ↦ elim (Result-cases (encrypt C key nonce plain)) [
      | inr (x, f) ↦ absurd (ground arith)
      | inl (t, f) ↦
          let same : t ≡ sealed = ground arith in
          let f' : encrypt C key nonce plain ≡ ok sealed = f ∙ ap ok same in
          (ground arith, plain, decrypt-encrypt key nonce plain sealed n f', D.decodes v plain e)
    ]
  ]
