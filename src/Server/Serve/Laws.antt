-- ===== src/Server/Serve/Laws.antt =====
-- The connections of crates/netfilum-server/src/server.rs: one after the other, each with the disk
-- that the one before left.
use netfilum.Prelude.{append-nil, ◌≡◌, refl, arith, List, [], ◌∷◌, ◌++◌, map, length}
use netfilum.Prelude.Texts.{Bytes}
use netfilum.Prelude.Results.{ok, err}
use netfilum.Protocol.{Request, Response, RpcResult}
use netfilum.Protocol.Errors.{IoError}
use netfilum.Rpc.{Codec, Crypto, Wire, nonce_len, connection_data, read_message, seal}
use netfilum.Rpc.Buffer.{Buffer, buffer, read_exact, read_exact-append}
use netfilum.Rpc.Frames.{IsCodec, IsCrypto, frame}
use netfilum.Rpc.RoundTrip.{read_message-seal, write_message-frame, read_message-output}
use netfilum.Server.Fs.{Fs}
use netfilum.Server.Resolve.{RpcServer}
use netfilum.Server.Dispatch.{dispatch}
use netfilum.Server.Serve.{
  Outcome, handled, warned, Accepted, stream, silent, Serving, waiting, blocked, serve_connection,
  serve, handle_data,
}

module _ (C : Crypto) (W : Wire) (F : Fs) (server : RpcServer) where
  module _ (requests : Codec Request) (responses : Codec (RpcResult Response)) where
    abbrev pub serving : List (Accepted W.State) → F.State → Serving × List Outcome × F.State
    serving = serve C W F server requests responses

    abbrev pub streams : List (W.State × Bytes) → List (Accepted W.State)
    streams = map (λ (st, nonce). stream st nonce)

    -- The loop has served these streams and then serves the rest.
    abbrev pub GoesOn : List (W.State × Bytes) → List (Accepted W.State) → F.State → Type 0
    GoesOn xs rest s =
        let (v, os, t) = serving (streams xs) s in
        let (v', os', t') = serving rest t in
        (serving (streams xs ++ rest) s ≡ (v', os ++ os', t'))
        × (v ≡ waiting)
        × (length os ≡ length xs)

    -- Whatever the streams hold on which a tag, an end or an error comes, the loop serves each of
    -- them, in order, and goes on with the next connections on the disk that they leave: none of
    -- these streams ends the loop.
    pub serve-streams :
        (xs : List (W.State × Bytes)) (rest : List (Accepted W.State)) (s : F.State)
        → GoesOn xs rest s
    unfolding serve
    serve-streams [] rest s = (refl, refl, refl)
    serve-streams ((st, nonce) ∷ xs) rest s =
        let t = (serve_connection C W F server requests responses nonce (st, s)).2 in
        let ih = serve-streams xs rest t in ground (arith, ih)

    -- At a silent stream the loop stops for good, behind the streams before: no connection after it is
    -- served.
    serve-silent :
        (xs : List (W.State × Bytes)) (rest : List (Accepted W.State)) (s : F.State)
        → serving (streams xs ++ silent ∷ rest) s
          ≡ (blocked, (serving (streams xs) s).1, (serving (streams xs) s).2)
    unfolding serve
    serve-silent xs rest s =
        let (whole, waits, all) = serve-streams xs (silent ∷ rest) s in
        ground (arith, append-nil (serving (streams xs) s).1)

module _ (C : Crypto) (F : Fs) (server : RpcServer) where
  module _ (requests : Codec Request) (responses : Codec (RpcResult Response)) where
    -- The server's side of a connection whose input is the given bytes.
    abbrev pub connection : Bytes → Bytes → F.State → Outcome × Buffer × F.State
    connection nonce input s =
        serve_connection C buffer F server requests responses nonce
          (record { input = input; output = [] }, s)

    tag_read :
        (input : Bytes)
        → read_exact 1 (record { input = connection_data ∷ input; output = [] })
          ≡ (ok (connection_data ∷ []), record { input = input; output = [] })
    tag_read input = read_exact-append (connection_data ∷ []) input []

    handle_data-unreadable :
        (nonce : Bytes) (st : Buffer) (s : F.State) (e : IoError)
        → (read_message C buffer requests server.cipher st).0 ≡ err e
        → handle_data C buffer F server requests responses nonce (st, s)
          ≡ (err e, ((read_message C buffer requests server.cipher st).1, s))
    unfolding handle_data
    handle_data-unreadable nonce st s e h = ground arith

    handle_data-dispatch :
        IsCrypto C
        → IsCodec requests
        → (nonce nonce' : Bytes) (r : Request) (s : F.State) (b b' : Bytes)
        → length nonce ≡ nonce_len
        → seal C requests server.cipher nonce r ≡ ok b
        → seal C responses server.cipher nonce' (dispatch F server r s).0 ≡ ok b'
        → handle_data C buffer F server requests responses nonce'
            (record { input = frame b; output = [] }, s)
          ≡ (ok tt, (record { input = []; output = frame b' }, (dispatch F server r s).1))
    unfolding handle_data
    handle_data-dispatch L D nonce nonce' r s b b' n h k =
        let received = read_message-seal C requests L D server.cipher nonce r b [] [] n h in
        ground (
          arith,
          append-nil (frame b),
          received,
          write_message-frame C responses server.cipher nonce' (dispatch F server r s).0
              (record { input = []; output = [] }),
        )

    -- A connection for data whose message cannot be read, be it cut off, be it under another key or be
    -- it no request, ends in a warning with that error. Nothing is answered, and the disk is as it
    -- was.
    pub serve_connection-unreadable :
        (nonce input : Bytes) (s : F.State) (e : IoError)
        → (read_message C buffer requests server.cipher (record { input = input; output = [] })).0
          ≡ err e
        → (connection nonce (connection_data ∷ input) s).0 ≡ warned e
          × ((connection nonce (connection_data ∷ input) s).1.output ≡ [])
          × ((connection nonce (connection_data ∷ input) s).2 ≡ s)
    unfolding serve_connection
    serve_connection-unreadable nonce input s e h =
        let st : Buffer = record { input = input; output = [] } in
        ground (
          arith,
          tag_read input,
          handle_data-unreadable nonce st s e h,
          read_message-output C requests server.cipher st,
        )

    -- A connection for data that holds a request sealed under the server's key is answered by the frame
    -- of the response that `dispatch` gives, and the disk is what `dispatch` leaves.
    pub serve_connection-dispatch :
        IsCrypto C
        → IsCodec requests
        → (nonce nonce' : Bytes) (r : Request) (s : F.State) (b b' : Bytes)
        → length nonce ≡ nonce_len
        → seal C requests server.cipher nonce r ≡ ok b
        → seal C responses server.cipher nonce' (dispatch F server r s).0 ≡ ok b'
        → connection nonce' (connection_data ∷ frame b) s
          ≡ (handled, record { input = []; output = frame b' }, (dispatch F server r s).1)
    unfolding serve_connection
    serve_connection-dispatch L D nonce nonce' r s b b' n h k =
        ground (arith, tag_read (frame b), handle_data-dispatch L D nonce nonce' r s b b' n h k)
