-- ===== src/Rpc.antt =====
-- src/rpc.rs: encrypted messages in frames with a length in front. The crates `postcard`, `aes-gcm`,
-- `argon2` and `blake3`, and the stream, are parameters: `Codec`, `Crypto` and `Wire`.
pub mod Frames
pub mod RoundTrip
pub mod Buffer
pub mod Toy
mod Tests
use netfilum.Prelude.{
  ℕ, zero, suc, ◌+◌, ◌*◌, ◌/◌, ◌%◌, ◌^◌, Bool, Option, some, none, List, [], ◌∷◌, ◌++◌,
}
use netfilum.Prelude.{length, take, drop, ltb, if◌then◌else◌}
use netfilum.Prelude.Texts.{Text, Bytes, codes}
use netfilum.Prelude.Results.{Result, ok, err, Run, lift, pure, map_err, and_then, ◌>>=◌, ◌>>◌}
use netfilum.Protocol.Errors.{ErrorKind, IoError, IoResult}

-- `postcard::to_allocvec` and `postcard::from_bytes` at a type of messages; an error is its text.
pub record Codec (T : Type 0) : Type 0 where
  pub to_allocvec : T → Result Text Bytes
  pub from_bytes : Bytes → Result Text T

-- `Aes256Gcm`, `Argon2::hash_password_into` for a 32-byte key with the default parameters, and
-- `blake3::hash`. A nonce from `generate_nonce` is an argument of what uses it.
pub record Crypto : Type 1 where
  pub Cipher : Type 0
  pub new_from_slice : Bytes → Result Text Cipher
  pub encrypt : Cipher → Bytes → Bytes → Result Text Bytes
  pub decrypt : Cipher → Bytes → Bytes → Result Text Bytes
  pub hash_password : Bytes → Bytes → Result Text Bytes
  pub blake3_hash : Bytes → Bytes

-- A `TcpStream`, with the environment behind it in its state. A timeout is in seconds.
pub record Wire : Type 1 where
  pub State : Type 0
  pub connect : Run State IoError Unit
  pub set_nodelay : Bool → Run State IoError Unit
  pub set_read_timeout : Option ℕ → Run State IoError Unit
  pub set_write_timeout : Option ℕ → Run State IoError Unit
  pub write_all : Bytes → Run State IoError Unit
  pub flush : Run State IoError Unit
  pub read_exact : ℕ → Run State IoError Bytes
  pub read : ℕ → Run State IoError Bytes
  pub shutdown : Run State IoError Unit

abbrev pub connection_data : ℕ
connection_data = 0x00

abbrev pub connection_monitor : ℕ
connection_monitor = 0x01

abbrev pub nonce_len : ℕ
nonce_len = 12

unfoldable pub codec_err : Text → IoError
codec_err message = record { kind = ErrorKind.invalid_data; message = message }

abbrev pub too_short : IoError
too_short = record { kind = ErrorKind.invalid_data; message = codes "encrypted frame is too short" }

abbrev pub too_long : IoError
too_long = record {
  kind = ErrorKind.invalid_input;
  message = codes "encrypted frame exceeds u32 length limit";
}

-- `u32::to_le_bytes` and `u32::from_le_bytes`
abbrev pub to_le_bytes : ℕ → Bytes
to_le_bytes n = (n % 256) ∷ (n / 256 % 256) ∷ (n / 65536 % 256) ∷ (n / 16777216 % 256) ∷ []

abbrev pub from_le_bytes : Bytes → ℕ
from_le_bytes [] = 0
from_le_bytes (b ∷ bs) = b + 256 * from_le_bytes bs

module _ (C : Crypto) where
  unfoldable pub derive_key : Bytes → IoResult Bytes
  unfolding codec_err
  derive_key password =
      let salt = take 16 (C.blake3_hash password) in
      map_err codec_err (C.hash_password password salt)

  -- `RpcCipher` is its key.
  unfoldable pub from_password : Bytes → IoResult Bytes
  unfolding derive_key
  from_password password = derive_key password

  unfoldable pub encrypt : Bytes → Bytes → Bytes → IoResult Bytes
  encrypt key nonce plaintext = and_then (map_err codec_err (C.new_from_slice key)) λ cipher.
      and_then (map_err codec_err (C.encrypt cipher nonce plaintext))
        λ ciphertext. ok (nonce ++ ciphertext)

  unfoldable pub decrypt : Bytes → Bytes → IoResult Bytes
  decrypt key payload =
      if ltb (length payload) nonce_len
      then err too_short
      else and_then (map_err codec_err (C.new_from_slice key)) λ cipher.
        map_err codec_err (C.decrypt cipher (take nonce_len payload) (drop nonce_len payload))

  -- The bytes of a message before they are written, or why there are none.
  unfoldable pub seal : {T : Type 0} → Codec T → Bytes → Bytes → T → IoResult Bytes
  seal codec key nonce value = and_then (map_err codec_err (codec.to_allocvec value)) λ bytes.
      and_then (encrypt key nonce bytes)
        λ sealed. if ltb (length sealed) (2 ^ 32) then ok sealed else err too_long

  module _ (W : Wire) where
    unfoldable pub write_message :
        {T : Type 0} → Codec T → Bytes → Bytes → T → Run W.State IoError Unit
    write_message codec key nonce value = do
      bytes ← lift (seal codec key nonce value)
      W.write_all (to_le_bytes (length bytes))
      W.write_all bytes
      W.flush

    unfoldable pub read_message : {T : Type 0} → Codec T → Bytes → Run W.State IoError T
    read_message codec key = do
      len_bytes ← W.read_exact 4
      payload ← W.read_exact (from_le_bytes len_bytes)
      bytes ← lift (decrypt key payload)
      lift (map_err codec_err (codec.from_bytes bytes))
