-- ===== src/Server/ServeTests.antt =====
-- Connections to a server over a disk in memory, and the theorems at these inputs.
use netfilum.Prelude.{◌≡◌, refl, List, [], ◌∷◌}
use netfilum.Prelude.Texts.{Bytes}
use netfilum.Prelude.Results.{err}
use netfilum.Rpc.{read_message, connection_data, connection_monitor}
use netfilum.Rpc.Buffer.{Buffer, buffer, read_exact, eof_error}
use netfilum.Rpc.Toy.{toy}
use netfilum.Server.Fs.Memory.Model.{memory}
use netfilum.Server.Sample.{disk, server}
use netfilum.Server.Codecs.{removals, answers}
use netfilum.Server.Serve.{warned}
use netfilum.Server.Serve.Laws.{connection, serve_connection-unreadable}

abbrev nonce : Bytes
nonce = 1 ∷ 2 ∷ 3 ∷ 4 ∷ 5 ∷ 6 ∷ 7 ∷ 8 ∷ 9 ∷ 10 ∷ 11 ∷ 12 ∷ []

-- A stream with a tag that means nothing, and one for a monitor.
abbrev tagged : List (Buffer × Bytes)
tagged =
    (record { input = 7 ∷ []; output = [] }, nonce)
    ∷ (record { input = connection_monitor ∷ []; output = [] }, nonce)
    ∷ []

cut :
    (read_message toy buffer removals server.cipher (record { input = []; output = [] })).0
    ≡ err eof_error
unfolding read_message read_exact
cut = refl

serve_connection-unreadable_example :
    ((connection toy memory server removals answers nonce (connection_data ∷ []) disk).0
      ≡ warned eof_error)
    × ((connection toy memory server removals answers nonce (connection_data ∷ []) disk).1.output
        ≡ [])
    × ((connection toy memory server removals answers nonce (connection_data ∷ []) disk).2 ≡ disk)
serve_connection-unreadable_example =
    serve_connection-unreadable toy memory server removals answers nonce [] disk eof_error cut
