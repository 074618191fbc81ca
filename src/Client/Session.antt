-- ===== src/Client/Session.antt =====
-- Requests that crates/netfilum-client/src/rpc_client.rs sends one after another to the server of
-- crates/netfilum-server/src/server.rs.
use netfilum.Prelude.{◌≡◌, refl, arith, List, [], ◌∷◌, length}
use netfilum.Prelude.Texts.{Bytes}
use netfilum.Prelude.Results.{Result, ok, map_err}
use netfilum.Protocol.{Request, Response, RpcResult}
use netfilum.Protocol.Errors.{IoError, to_io_error}
use netfilum.Rpc.{Codec, Crypto, nonce_len, seal}
use netfilum.Rpc.Frames.{IsCodec, IsCrypto}
use netfilum.Server.Fs.{Fs}
use netfilum.Server.Resolve.{RpcServer}
use netfilum.Server.Dispatch.{dispatch}
use netfilum.Client.Peer.{Link, peer, send-dispatch}
use netfilum.Client.RpcClient.{RpcClient, send}

-- A request, the client's nonce and the nonce of the server's response.
pub record Exchange : Type 0 where
  pub request : Request
  pub nonce : Bytes
  pub answered_nonce : Bytes

abbrev pub Answers : Type 0
Answers = List (Result IoError Response)

module _ (C : Crypto) (F : Fs) (server : RpcServer) where
  -- The requests that the server dispatches in this order, and what it answers as the client gets it.
  unfoldable pub dispatched : List Exchange → F.State → Answers × F.State
  dispatched [] s = ([], s)
  dispatched (x ∷ xs) s =
      let (r, t) = dispatch F server x.request s in
      let (rs, u) = dispatched xs t in (map_err to_io_error r ∷ rs, u)

  -- The link with no bytes under way.
  abbrev pub idle : F.State → Link F.State
  idle s = record { buffer = record { input = []; output = [] }; disk = s }

  module _ (requests : Codec Request) (responses : Codec (RpcResult Response)) where
    -- Each request on a connection of its own, whether the ones before it succeed or fail.
    unfoldable pub session : RpcClient → List Exchange → Link F.State → Answers × Link F.State
    session client [] l = ([], l)
    session client (x ∷ xs) l =
        let (r, m) =
          send C (peer C F server requests responses x.answered_nonce) requests responses client
            x.nonce x.request l in
        let (rs, n) = session client xs m in (r ∷ rs, n)

    -- Every request, and every response to it, fits a frame, under nonces of 12 bytes.
    abbrev pub Fits : List Exchange → F.State → Type 0
    Fits [] s = Unit
    Fits (x ∷ xs) s =
        (length x.nonce ≡ nonce_len)
        × (length x.answered_nonce ≡ nonce_len)
        × ((b : Bytes) × (seal C requests server.cipher x.nonce x.request ≡ ok b))
        × ((b : Bytes) × (seal C responses server.cipher x.answered_nonce
                (dispatch F server x.request s).0
              ≡ ok b))
        × Fits xs (dispatch F server x.request s).1

    -- Requests that are sent one after another, with the server's key, are dispatched in this order,
    -- each once and each on the disk that the one before it leaves; the client gets the answers in
    -- this order and no bytes are left on the link. The requests and the responses fit their frames.
    pub session-dispatched :
        IsCrypto C
        → IsCodec requests
        → IsCodec responses
        → (client : RpcClient) → client.cipher ≡ server.cipher
        → (xs : List Exchange) (s : F.State) → Fits xs s
        → session client xs (idle s) ≡ ((dispatched xs s).0, idle (dispatched xs s).1)
    unfolding session dispatched
    session-dispatched L D R client same [] s fits = refl
    session-dispatched L D R client same (x ∷ xs) s (n, n', (b, h), (b', h'), fits) = ground (
      arith,
      send-dispatch C F server requests responses L D R client x.nonce x.answered_nonce x.request s
          b b' same n n' h h',
      session-dispatched L D R client same xs (dispatch F server x.request s).1 fits,
    )
