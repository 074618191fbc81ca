-- ===== src/Client/NetworkTests.antt =====
-- An open file on a disk in memory behind the server and an encrypted stream, and the theorem at this
-- input.
use netfilum.Prelude.{List, ◌∷◌, ◌⊎◌, inl, inr, ◌≡◌, refl, sym, subst, []}
use netfilum.Prelude.Texts.{Bytes, codes}
use netfilum.Prelude.Results.{ok}
use netfilum.Protocol.{file, Request}
use netfilum.Protocol.Errors.{rpc_error_from}
use netfilum.Paths.{join, path_starts_with}
use netfilum.Rpc.{seal, encrypt, decrypt, write_message, read_message}
use netfilum.Rpc.Buffer.{read_exact}
use netfilum.Server.Serve.{serve_connection}
use netfilum.Client.Peer.{answer, peer_read}
use netfilum.Rpc.Toy.{toy, toy-IsCrypto}
use netfilum.Server.Path.{normalize_relative_path}
use netfilum.Server.Fs.Memory.{Disk, find, slot_at, remove, unlink}
use netfilum.Server.Fs.Memory.Model.{memory}
use netfilum.Server.Codecs.{removals, removals-IsCodec, outcomes, outcomes-IsCodec}
use netfilum.Server.Sample.{disk, server}
use netfilum.Server.Resolve.{resolve_existing}
use netfilum.Server.Files.{remove_file}
use netfilum.Server.Dispatch.{dispatch}
use netfilum.Client.MountState.{initial}
use netfilum.Client.Context.{RpcFsContext, new_file_context, call}
use netfilum.Client.RpcClient.{RpcClient, send}
use netfilum.Client.Sample.{winfsp}
use netfilum.Client.Operations.{Opened, cleanup, should_delete}
use netfilum.Client.Operations.Performed.{Operation}
use netfilum.Client.Operations.Requests.{Asked}
use netfilum.Client.Operations.Replies.{replying, replying_all}
use netfilum.Client.Networked.{
  networked, directly, same_fs, Nonces, Carries, CarriedAlong, networked-served,
}
use netfilum.Client.Served.{served}
use netfilum.Client.Context.{Environment}

abbrev client : RpcClient
client = record { addr = codes "127.0.0.1:5001"; timeout = 5; cipher = [] }

abbrev nonces : Nonces
nonces k = (codes "123456789012", codes "abcdefghijkl")

abbrev through : Environment
through = networked toy memory server removals outcomes client nonces winfsp

-- The file `b`, which holds `hello`.
abbrev opened : Opened through
opened = record {
  mounted = record { world = record { disk = disk; connections = 0 }; mount_state = initial };
  context = new_file_context through (codes "b") file;
}

abbrev fs : RpcFsContext through
fs = record { security_descriptor = []; volume_label = codes "disk" }

-- The file is deleted when it is cleaned up.
abbrev deleting : Operation
deleting = Operation.cleanup 1

abbrev request : Request
request = Request.remove_file (codes "b")

abbrev after : Disk
after = (dispatch memory server request disk).1

abbrev Allowed : Disk → Type 0
Allowed s = (s ≡ disk) ⊎ (s ≡ after)

-- The file cannot be removed twice.
removed : (dispatch memory server request after).1 ≡ after
unfolding dispatch remove_file resolve_existing normalize_relative_path join path_starts_with find
    slot_at remove unlink
removed = refl

-- What holds on both disks holds on those that are allowed.
on_both : (P : Disk → Type 0) → P disk → P after → (s : Disk) → Allowed s → P s
on_both P p q s (inl h) = subst P (sym h) p
on_both P p q s (inr h) = subst P (sym h) q

abbrev IsAnswered : Disk → Type 0
IsAnswered s =
    (b : Bytes) × (seal toy outcomes [] (codes "abcdefghijkl") (dispatch memory server request s).0
      ≡ ok b)

answered : IsAnswered disk × IsAnswered after
unfolding seal encrypt dispatch remove_file resolve_existing normalize_relative_path join
    path_starts_with find slot_at remove unlink rpc_error_from
answered = ((_, refl), (_, refl))

sent : (b : Bytes) × (seal toy removals [] (codes "123456789012") request ≡ ok b)
unfolding seal encrypt
sent = (_, refl)

carried :
    Carries toy memory server removals outcomes client nonces
      (Asked (codes "b") file deleting)
      Allowed
carried = record {
  stays = λ r s e a.
      rw e
        (on_both (λ x. Allowed (dispatch memory server request x).1) (inr refl) (inr removed) s a);
  lengths = λ k. (refl, refl);
  sent = λ r s k e a. rw e sent;
  answered = λ r s k e a. rw e (on_both IsAnswered answered.0 answered.1 s a);
}

-- The second removal fails, and the file is gone.
abbrev operations : List Operation
operations = deleting ∷ deleting ∷ []

abbrev direct : Opened (served winfsp memory server)
direct = directly toy memory server removals outcomes client nonces winfsp opened

abbrev direct_fs : RpcFsContext (served winfsp memory server)
direct_fs = same_fs toy memory server removals outcomes client nonces winfsp fs

removed_through : (replying through fs deleting opened).1.mounted.world.disk ≡ after
unfolding cleanup should_delete call send write_message read_message answer peer_read read_exact
    serve_connection seal encrypt decrypt dispatch remove_file resolve_existing
    normalize_relative_path join path_starts_with find slot_at remove unlink
removed_through = refl

carried_along :
    CarriedAlong toy memory server removals outcomes client nonces winfsp fs operations opened
unfolding cleanup
carried_along = ((Allowed, carried, inl refl), ((Allowed, carried, inr removed_through), tt))

networked-served_example :
    ((replying_all through fs operations opened).0
      ≡ (replying_all (served winfsp memory server) direct_fs operations direct).0)
    × (directly toy memory server removals outcomes client nonces winfsp
          (replying_all through fs operations opened).1
        ≡ (replying_all (served winfsp memory server) direct_fs operations direct).1)
networked-served_example =
    networked-served toy memory server removals outcomes client nonces toy-IsCrypto removals-IsCodec
      outcomes-IsCodec refl winfsp fs operations opened carried_along
