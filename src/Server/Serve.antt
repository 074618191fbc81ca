-- ===== src/Server/Serve.antt =====
-- crates/netfilum-server/src/server.rs: `handle_data`, `serve` and `wait_for_disconnect`. A
-- connection is the state of its stream; the disk is shared by all of them.
pub mod Laws
use netfilum.Prelude.{
  ℕ, zero, suc, Bool, true, false, Option, none, some, List, [], ◌∷◌, ◌==◌, if◌then◌else◌,
}
use netfilum.Prelude.Texts.{Text, Bytes}
use netfilum.Prelude.Results.{Result, ok, err, Run, pure, ◌>>=◌, ◌>>◌}
use netfilum.Protocol.{Request, Response, RpcResult}
use netfilum.Protocol.Errors.{IoError}
use netfilum.Rpc.{
  Codec, Crypto, Wire, connection_data, connection_monitor, read_message, write_message,
}
use netfilum.Server.Fs.{Fs}
use netfilum.Server.Resolve.{RpcServer}
use netfilum.Server.Dispatch.{dispatch}

-- What became of a connection: no tag could be read, its request was handled or failed with a warning,
-- it was left to a thread that waits for its end, or it had an unknown tag.
pub data Outcome : Type 0 where
  untagged handled monitored ignored : Outcome
  warned : IoError → Outcome

-- An `accept` fails, or gives a stream on which a tag, an end or an error comes some time, or a silent
-- one, on which nothing ever comes; the nonce is what `generate_nonce` gives for the response.
pub data Accepted (S : Type 0) : Type 0 where
  failed : IoError → Accepted S
  stream : S → Bytes → Accepted S
  silent : Accepted S

-- The loop waits for the next connection, waits for the tag of a silent stream for ever, or has returned
-- an error.
pub data Serving : Type 0 where
  waiting blocked : Serving
  stopped : IoError → Serving

-- `wait_for_disconnect` reads bytes until the stream ends or fails; `none` where it still waits
-- after that many reads.
unfoldable pub wait_for_disconnect :
    (W : Wire) → ℕ → W.State → Option {0} (Result IoError (Unit {0}))
wait_for_disconnect W zero st = none
wait_for_disconnect W (suc n) st = elim (W.read 1 st).0 [
  | ok [] ↦ some (ok tt)
  | ok (b ∷ bs) ↦ wait_for_disconnect W n (W.read 1 st).1
  | err e ↦ some (ok tt)
]

module _ (C : Crypto) (W : Wire) (F : Fs) (server : RpcServer) where
  module _ (requests : Codec Request) (responses : Codec (RpcResult Response)) where
    abbrev on_stream : {A : Type 0} → Run W.State IoError A → Run (W.State × F.State) IoError A
    on_stream m (st, s) = let (r, st') = m st in (r, (st', s))

    -- A response, be it an error or not, is a value that is sent.
    abbrev on_disk : {A : Type 0} → (F.State → A × F.State) → Run (W.State × F.State) IoError A
    on_disk m (st, s) = let (a, s') = m s in (ok a, (st, s'))

    unfoldable pub handle_data : Bytes → Run (W.State × F.State) IoError Unit
    handle_data nonce = do
      on_stream (W.set_nodelay true)
      on_stream (W.set_read_timeout (some 5))
      on_stream (W.set_write_timeout (some 5))
      request ← on_stream (read_message C W requests server.cipher)
      response ← on_disk (dispatch F server request)
      on_stream (write_message C W responses server.cipher nonce response)

    abbrev outcome_of : Result IoError (Unit {0}) → Outcome
    outcome_of (ok u) = handled
    outcome_of (err e) = warned e

    abbrev first_byte : Bytes → ℕ
    first_byte [] = 0
    first_byte (b ∷ bs) = b

    -- The body of the loop for one stream.
    unfoldable pub serve_connection : Bytes → W.State × F.State → Outcome × W.State × F.State
    unfolding handle_data
    serve_connection nonce (st, s) =
        let (tag, st') = W.read_exact 1 st in
        elim tag [
          | err e ↦ (untagged, st', s)
          | ok bytes ↦
              if first_byte bytes == connection_data
              then (let (r, c) = handle_data nonce (st', s) in (outcome_of r, c.0, c.1))
              else if first_byte bytes == connection_monitor
              then (monitored, st', s)
              else (ignored, st', s)
        ]

    -- The loop over the connections that arrive.
    unfoldable pub serve : List (Accepted W.State) → F.State → Serving × List Outcome × F.State
    serve [] s = (waiting, [], s)
    serve (failed e ∷ rest) s = (stopped e, [], s)
    serve (silent ∷ rest) s = (blocked, [], s)
    serve (stream st nonce ∷ rest) s =
        let (o, st', s') = serve_connection nonce (st, s) in
        let (v, os, t) = serve rest s' in (v, o ∷ os, t)
