-- ===== src/Client/Peer.antt =====
-- The client and the server together: crates/netfilum-client/src/rpc_client.rs over a stream whose
-- other end is the server of crates/netfilum-server/src/server.rs.
use netfilum.Prelude.{
  ℕ, ◌<◌, ◌^◌, ◌≡◌, arith, append-nil, append_assoc, [], ◌∷◌, ◌++◌, length, ltb, if◌then◌else◌,
}
use netfilum.Prelude.Texts.{Bytes}
use netfilum.Prelude.Results.{ok, Run, map_err}
use netfilum.Protocol.{Request, Response, RpcResult}
use netfilum.Protocol.Errors.{IoError, to_io_error}
use netfilum.Rpc.{
  Codec, Crypto, Wire, nonce_len, connection_data, read_message, write_message, seal,
}
use netfilum.Rpc.{to_le_bytes, decrypt}
use netfilum.Rpc.Buffer.{Buffer, buffer, read_exact, read_exact-append}
use netfilum.Rpc.Frames.{IsCodec, IsCrypto, frame, seal-eq_ok, from_le_bytes-to_le_bytes}
use netfilum.Server.Fs.{Fs}
use netfilum.Server.Resolve.{RpcServer}
use netfilum.Server.Dispatch.{dispatch}
use netfilum.Server.Serve.Laws.{connection, serve_connection-dispatch}
use netfilum.Client.RpcClient.{RpcClient, send}

-- The stream's two directions, and the server's disk.
pub record Link (S : Type 0) : Type 0 where
  pub buffer : Buffer
  pub disk : S

module _ (C : Crypto) (F : Fs) (server : RpcServer) where
  module _ (requests : Codec Request) (responses : Codec (RpcResult Response)) where
    -- The server takes what the client has written and answers it.
    unfoldable pub answer : Bytes → Link F.State → Link F.State
    answer nonce l =
        let (o, b, s) = connection C F server requests responses nonce l.buffer.output l.disk in
        record { buffer = record { input = l.buffer.input ++ b.output; output = [] }; disk = s }

    abbrev pub over : {A : Type 0} → Run Buffer IoError A → Run (Link F.State) IoError A
    over m l = let (r, b) = m l.buffer in (r, record l { buffer = b })

    -- A read that lacks bytes waits for the server's answer.
    unfoldable pub peer_read : Bytes → ℕ → Run (Link F.State) IoError Bytes
    peer_read nonce n l =
        over (read_exact n) (if ltb (length l.buffer.input) n then answer nonce l else l)

    -- A stream to the server; the nonce is that of its response.
    abbrev pub peer : Bytes → Wire
    peer nonce = record {
      State = Link F.State;
      connect = λ l. (ok tt, l);
      set_nodelay = λ on l. (ok tt, l);
      set_read_timeout = λ t l. (ok tt, l);
      set_write_timeout = λ t l. (ok tt, l);
      write_all = λ bytes. over (buffer.write_all bytes);
      flush = λ l. (ok tt, l);
      read_exact = peer_read nonce;
      read = peer_read nonce;
      shutdown = λ l. (ok tt, l);
    }

    write_peer :
        (k key nonce : Bytes) (v : Request) (b : Bytes) (l : Link F.State)
        → seal C requests key nonce v ≡ ok b
        → write_message C (peer k) requests key nonce v l
          ≡ (ok tt, record l { buffer = record l.buffer { output = l.buffer.output ++ frame b } })
    unfolding write_message frame
    write_peer k key nonce v b l h =
        ground (arith, append_assoc l.buffer.output (to_le_bytes (length b)) b)

    peer_read-answered :
        (k b' o : Bytes) (s s' : F.State)
        → answer k (record { buffer = record { input = []; output = o }; disk = s })
          ≡ record { buffer = record { input = frame b'; output = [] }; disk = s' }
        → peer_read k 4 (record { buffer = record { input = []; output = o }; disk = s }) ≡ (
          ok (to_le_bytes (length b')),
          record { buffer = record { input = b'; output = [] }; disk = s' },
        )
    unfolding peer_read frame
    peer_read-answered k b' o s s' h =
        rw h (ground (arith, read_exact-append (to_le_bytes (length b')) b' []))

    peer_read-buffered :
        (k b' : Bytes) (s : F.State)
        → peer_read k (length b') (record { buffer = record { input = b'; output = [] }; disk = s })
          ≡ (ok b', record { buffer = record { input = []; output = [] }; disk = s })
    unfolding peer_read
    peer_read-buffered k b' s =
        let whole = read_exact-append b' [] [] in ground (arith, append-nil b', whole)

    read_peer :
        (k key b b' : Bytes) (o : Bytes) (v : RpcResult Response) (s s' : F.State) (plain : Bytes)
        → answer k (record { buffer = record { input = []; output = o }; disk = s })
          ≡ record { buffer = record { input = frame b'; output = [] }; disk = s' }
        → length b' < 2 ^ 32
        → decrypt C key b' ≡ ok plain
        → responses.from_bytes plain ≡ ok v
        → read_message C
            (peer k)
            responses
            key
            (record { buffer = record { input = []; output = o }; disk = s })
          ≡ (ok v, record { buffer = record { input = []; output = [] }; disk = s' })
    unfolding read_message
    read_peer k key b b' o v s s' plain answered fits opens decodes = ground (
      arith,
      peer_read-answered k b' o s s' answered,
      from_le_bytes-to_le_bytes (length b') fits,
      peer_read-buffered k b' s',
    )

    -- A request that a client sends to a server with the same key is what the server dispatches, once:
    -- the client gets the server's response, or the server's error as an `io::Error`, and the disk is
    -- what `dispatch` leaves. The request and the response fit a frame and the nonces have 12 bytes.
    pub send-dispatch :
        IsCrypto C
        → IsCodec requests
        → IsCodec responses
        → (client : RpcClient) (nonce nonce' : Bytes) (r : Request) (s : F.State) (b b' : Bytes)
        → client.cipher ≡ server.cipher
        → length nonce ≡ nonce_len
        → length nonce' ≡ nonce_len
        → seal C requests server.cipher nonce r ≡ ok b
        → seal C responses server.cipher nonce' (dispatch F server r s).0 ≡ ok b'
        → send C
            (peer nonce')
            requests
            responses
            client
            nonce
            r
            (record { buffer = record { input = []; output = [] }; disk = s })
          ≡ (
            map_err to_io_error (dispatch F server r s).0,
            record {
              buffer = record { input = []; output = [] };
              disk = (dispatch F server r s).1;
            },
          )
    unfolding send answer
    send-dispatch L D E client nonce nonce' r s b b' same n n' h k =
        let served =
          serve_connection-dispatch C F server requests responses L D nonce nonce' r s b b' n h k in
        let (fits, plain, opens, decodes) =
          seal-eq_ok C L responses E server.cipher nonce' (dispatch F server r s).0 b' n' k in
        let start : Link F.State = record {
          buffer = record { input = []; output = connection_data ∷ [] };
          disk = s;
        } in
        ground (
          arith,
          write_peer nonce' server.cipher nonce r b start h,
          read_peer nonce' server.cipher b b' (connection_data ∷ frame b) (dispatch F server r s).0
              s (dispatch F server r s).1 plain (ground (arith, served)) fits opens decodes,
        )
