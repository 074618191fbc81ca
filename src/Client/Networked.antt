-- ===== src/Client/Networked.antt =====
-- The client's operations with the server of crates/netfilum-server/src/server.rs behind an encrypted
-- stream: each request goes through `RpcClient::send` of crates/netfilum-client/src/rpc_client.rs on a
-- connection of its own.
use netfilum.Prelude.{List, [], ◌∷◌, refl, arith, ℕ, suc, ◌≡◌, ap, sym, subst, length}
use netfilum.Prelude.Texts.{Bytes}
use netfilum.Prelude.Results.{ok, map_err}
use netfilum.Protocol.{Request, Response, RpcResult}
use netfilum.Protocol.Errors.{to_io_error}
use netfilum.Rpc.{Codec, Crypto, nonce_len, seal}
use netfilum.Rpc.Frames.{IsCodec, IsCrypto}
use netfilum.Server.Fs.{Fs}
use netfilum.Server.Resolve.{RpcServer}
use netfilum.Server.Dispatch.{dispatch}
use netfilum.Client.Context.{Environment, RpcFsContext}
use netfilum.Client.RpcClient.{RpcClient, send}
use netfilum.Client.Peer.{peer, send-dispatch}
use netfilum.Client.Session.{idle}
use netfilum.Client.Served.{answered_by, served}
use netfilum.Client.Operations.{Opened}
use netfilum.Client.Operations.Performed.{Operation}
use netfilum.Client.Operations.Requests.{Asked}
use netfilum.Client.Operations.Replies.{replying, replying_all}
use netfilum.Client.Operations.Matching.Twins.{Twins}
use netfilum.Client.Operations.Matching.Every.{Agree, replying-Agree}

-- The disk of the server, and how many connections were made.
pub record Network (S : Type 0) : Type 0 where
  pub disk : S
  pub connections : ℕ

-- The nonces of each connection, the client's and the server's.
abbrev pub Nonces : Type 0
Nonces = ℕ → Bytes × Bytes

module _ (C : Crypto) (F : Fs) (server : RpcServer) (requests : Codec Request)
    (responses : Codec (RpcResult Response)) (client : RpcClient) (nonces : Nonces) where
  abbrev pub networked : Environment → Environment
  networked E = answered_by E (Network F.State) λ request w.
      let (nonce, answered_nonce) = nonces w.connections in
      let (r, l) =
        send C (peer C F server requests responses answered_nonce) requests responses client nonce
          request (idle C F server w.disk) in
      (r, record { disk = l.disk; connections = suc w.connections })

  -- The requests that are asked, and their responses, fit a frame on the disks that are allowed, which
  -- the requests do not leave; the nonces have 12 bytes.
  pub record Carries (Asks : Request → Type 0) (Allowed : F.State → Type 0) : Type 0 where
    pub stays : (r : Request) (s : F.State) → Asks r → Allowed s → Allowed (dispatch F server r s).1
    pub lengths : (k : ℕ) → (length (nonces k).0 ≡ nonce_len) × (length (nonces k).1 ≡ nonce_len)
    pub sent :
        (r : Request) (s : F.State) (k : ℕ)
        → Asks r
        → Allowed s
        → (b : Bytes) × (seal C requests server.cipher (nonces k).0 r ≡ ok b)
    pub answered :
        (r : Request) (s : F.State) (k : ℕ)
        → Asks r
        → Allowed s
        → (b : Bytes) × (seal C responses server.cipher (nonces k).1 (dispatch F server r s).0
            ≡ ok b)

  module _ (L : IsCrypto C) (D : IsCodec requests) (R : IsCodec responses)
      (same : client.cipher ≡ server.cipher) (Asks : Request → Type 0) (Allowed : F.State → Type 0)
      (K : Carries Asks Allowed) where
    exchanged :
        (E : Environment) (r : Request) (w : Network F.State)
        → Asks r
        → Allowed w.disk
        → (networked E).send r w ≡ (
          map_err to_io_error (dispatch F server r w.disk).0,
          record { disk = (dispatch F server r w.disk).1; connections = suc w.connections },
        )
    exchanged E r w asked allowed =
        let (n, m) = K.lengths w.connections in
        let (b, h) = K.sent r w.disk w.connections asked allowed in
        let (c, k) = K.answered r w.disk w.connections asked allowed in
        ap (λ x. (x.0, record { disk = x.1.disk; connections = suc w.connections }))
          (send-dispatch C F server requests responses L D R client (nonces w.connections).0
            (nonces w.connections).1 r w.disk b c same n m h k)

    abbrev twins : Environment → Twins Asks
    twins E = record {
      World = Network F.State;
      Seen = F.State;
      send = (networked E).send;
      send_seen = (served E F server).send;
      view = λ w. w.disk;
      At = λ w. Allowed w.disk;
      answers = λ r w asked at. ap (λ x. x.0) (exchanged E r w asked at);
      worlds = λ r w asked at. ap (λ x. x.1.disk) (exchanged E r w asked at);
      stays = λ r w asked at.
          subst Allowed (sym (ap (λ x. x.1.disk) (exchanged E r w asked at)))
            (K.stays r w.disk asked at);
    }

  -- The same open file with the server behind it and no stream between them.
  abbrev pub directly : (E : Environment) → Opened (networked E) → Opened (served E F server)
  directly E o = record {
    mounted = record { world = o.mounted.world.disk; mount_state = o.mounted.mount_state };
    context = record {
      path = o.context.path;
      kind = o.context.kind;
      dir_buffer = o.context.dir_buffer;
      delete_pending = o.context.delete_pending;
    };
  }

  abbrev pub same_fs :
      (E : Environment) → RpcFsContext (networked E) → RpcFsContext (served E F server)
  same_fs E fs = record {
    security_descriptor = fs.security_descriptor;
    volume_label = fs.volume_label;
  }

  -- One operation of the mounted file system through the stream and without it.
  networked-one :
      IsCrypto C
      → IsCodec requests
      → IsCodec responses
      → client.cipher ≡ server.cipher
      → (E : Environment) (fs : RpcFsContext (networked E)) (op : Operation)
        (o : Opened (networked E)) (Allowed : F.State → Type 0)
      → Carries (Asked o.context.path o.context.kind op) Allowed
      → Allowed o.mounted.world.disk
      → Agree
          (directly E)
          (replying (networked E) fs op)
          (replying (served E F server) (same_fs E fs) op)
          o
  networked-one L D R same E fs op o Allowed K at =
      let asks = Asked o.context.path o.context.kind op in
      replying-Agree E asks (twins L D R same asks Allowed K E) fs o at op (λ r h. h)

  -- Along operations: what an operation asks for is carried, on the disks that its requests lead to.
  abbrev pub CarriedAlong :
      (E : Environment) (fs : RpcFsContext (networked E))
      → List Operation
      → Opened (networked E)
      → Type 1
  CarriedAlong E fs [] o = Unit
  CarriedAlong E fs (op ∷ ops) o =
      ((Allowed : F.State → Type 0) × Carries (Asked o.context.path o.context.kind op) Allowed
        × Allowed o.mounted.world.disk)
      × CarriedAlong E fs ops (replying (networked E) fs op o).1

  -- Operations of the mounted file system on one open file, one after another, whose requests go through
  -- the encrypted stream return what they return where the requests reach the server directly, values
  -- and errors, and they leave the same disk on the server, the same state of the mount and the same
  -- open file. The client and the server have the same key, the nonces have 12 bytes, and the requests
  -- that an operation makes, and the responses to them, fit their frames on every disk that these
  -- requests lead to.
  pub networked-served :
      IsCrypto C
      → IsCodec requests
      → IsCodec responses
      → client.cipher ≡ server.cipher
      → (E : Environment) (fs : RpcFsContext (networked E)) (ops : List Operation)
        (o : Opened (networked E))
      → CarriedAlong E fs ops o
      → ((replying_all (networked E) fs ops o).0
          ≡ (replying_all (served E F server) (same_fs E fs) ops (directly E o)).0)
        × (directly E (replying_all (networked E) fs ops o).1
            ≡ (replying_all (served E F server) (same_fs E fs) ops (directly E o)).1)
  unfolding replying_all
  networked-served L D R same E fs [] o k = (refl, refl)
  networked-served L D R same E fs (op ∷ ops) o ((Allowed, K, at), k) = ground (
    arith,
    networked-one L D R same E fs op o Allowed K at,
    networked-served L D R same E fs ops (replying (networked E) fs op o).1 k,
  )
