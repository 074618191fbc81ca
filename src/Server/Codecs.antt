-- ===== src/Server/Codecs.antt =====
-- Codecs for some of the messages, for tests.
use netfilum.Prelude.{zero, suc, arith, [], ◌∷◌}
use netfilum.Prelude.Texts.{Text, Bytes, codes}
use netfilum.Prelude.Results.{Result, ok, err}
use netfilum.Protocol.{ErrorCode, Request, Response, RpcResult}
use netfilum.Rpc.{Codec}
use netfilum.Rpc.Frames.{IsCodec}

-- The path of a `RemoveFile`; no other request has a code.
abbrev encode_request : Request → Result Text Bytes
encode_request (Request.remove_file path) = ok path
encode_request _ = err (codes "postcard")

abbrev pub removals : Codec Request
removals = record { to_allocvec = encode_request; from_bytes = λ b. ok (Request.remove_file b) }

pub removals-IsCodec : IsCodec removals
removals-IsCodec = record { decodes = λ v b h. ground arith }

abbrev encode_response : RpcResult Response → Result Text Bytes
encode_response (ok Response.empty) = ok []
encode_response _ = err (codes "postcard")

abbrev pub answers : Codec (RpcResult Response)
answers = record { to_allocvec = encode_response; from_bytes = λ b. ok (ok Response.empty) }

pub answers-IsCodec : IsCodec answers
answers-IsCodec = record { decodes = λ v b h. ground arith }

-- An empty answer, or that something is not found.
abbrev encode_outcome : RpcResult Response → Result Text Bytes
encode_outcome (ok Response.empty) = ok (0 ∷ [])
encode_outcome (err e) = elim e.code [
  | ErrorCode.not_found ↦ ok (1 ∷ e.message)
  | _ ↦ err (codes "postcard")
]
encode_outcome _ = err (codes "postcard")

abbrev decode_outcome : Bytes → Result Text (RpcResult Response)
decode_outcome [] = err (codes "postcard")
decode_outcome (zero ∷ b) = ok (ok Response.empty)
decode_outcome (suc n ∷ b) = ok (err (record { code = ErrorCode.not_found; message = b }))

abbrev pub outcomes : Codec (RpcResult Response)
outcomes = record { to_allocvec = encode_outcome; from_bytes = decode_outcome }

pub outcomes-IsCodec : IsCodec outcomes
outcomes-IsCodec = record { decodes = λ v b h. ground arith }
