-- ===== src/Rpc/Tests.antt =====
-- Messages over a stream in memory, with a toy cipher, and the theorems at these inputs.
use netfilum.Prelude.{◌≡◌, refl, arith, [], ◌∷◌, ◌++◌}
use netfilum.Prelude.Texts.{Bytes, codes}
use netfilum.Prelude.Results.{ok, err}
use netfilum.Protocol.Errors.{IoError, ErrorKind}
use netfilum.Rpc.{seal, encrypt, read_message}
use netfilum.Rpc.Buffer.{buffer}
use netfilum.Rpc.Frames.{frame}
use netfilum.Rpc.RoundTrip.{read_message-seal, read_message-wrong_key}
use netfilum.Rpc.Toy.{toy, toy-IsCrypto, text_codec, text_codec-IsCodec}

abbrev key : Bytes
key = 7 ∷ []

abbrev nonce : Bytes
nonce = 1 ∷ 2 ∷ 3 ∷ 4 ∷ 5 ∷ 6 ∷ 7 ∷ 8 ∷ 9 ∷ 10 ∷ 11 ∷ 12 ∷ []

-- The nonce, the toy cipher's tag, and the text.
abbrev sealed : Bytes
sealed = nonce ++ (7 ∷ codes "hi")

sealed_lem : seal toy text_codec key nonce (codes "hi") ≡ ok sealed
unfolding seal encrypt
sealed_lem = refl

read_message-seal_example :
    read_message toy buffer text_codec key
      (record { input = frame sealed ++ (9 ∷ []); output = [] })
    ≡ (ok (codes "hi"), record { input = 9 ∷ []; output = [] })
read_message-seal_example =
    read_message-seal toy text_codec toy-IsCrypto text_codec-IsCodec key nonce (codes "hi") sealed
      (9 ∷ []) [] refl sealed_lem

read_message-wrong_key_example :
    (e : IoError) × (e.kind ≡ ErrorKind.invalid_data)
    × (read_message toy buffer text_codec
          (8 ∷ [])
          (record { input = frame sealed ++ []; output = [] })
        ≡ (err e, record { input = []; output = [] }))
read_message-wrong_key_example =
    read_message-wrong_key toy text_codec (8 ∷ []) sealed [] [] (8 ∷ []) (codes "aead")
      (omega arith) refl refl
