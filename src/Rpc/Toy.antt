-- ===== src/Rpc/Toy.antt =====
-- A toy cipher and codec that keep `IsCrypto` and `IsCodec`, for tests: the tag of a ciphertext is
-- the first byte of the key.
use netfilum.Prelude.{ℕ, arith, [], ◌∷◌, ◌==◌, if◌then◌else◌}
use netfilum.Prelude.Texts.{Text, Bytes, codes}
use netfilum.Prelude.Results.{Result, ok, err}
use netfilum.Rpc.{Codec, Crypto}
use netfilum.Rpc.Frames.{IsCodec, IsCrypto}

abbrev pub tag : Bytes → ℕ
tag [] = 0
tag (k ∷ key) = k

abbrev pub toy_decrypt : Bytes → Bytes → Bytes → Result Text Bytes
toy_decrypt key nonce [] = err (codes "aead")
toy_decrypt key nonce (t ∷ text) = if t == tag key then ok text else err (codes "aead")

abbrev pub toy : Crypto
toy = record {
  Cipher = Bytes;
  new_from_slice = λ key. ok key;
  encrypt = λ key nonce text. ok (tag key ∷ text);
  decrypt = toy_decrypt;
  hash_password = λ password salt. ok password;
  blake3_hash = λ b. b;
}

pub toy-IsCrypto : IsCrypto toy
toy-IsCrypto = record { decrypts = λ key nonce plain sealed h. ground arith }

abbrev pub text_codec : Codec Text
text_codec = record { to_allocvec = λ t. ok t; from_bytes = λ b. ok b }

pub text_codec-IsCodec : IsCodec text_codec
text_codec-IsCodec = record { decodes = λ v b h. ground arith }
