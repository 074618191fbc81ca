-- ===== src/Client/Operations/Reads.antt =====
-- Reads of crates/netfilum-client/src/mount.rs from a server of crates/netfilum-server/src/server.rs.
use netfilum.Prelude.{
  ℕ, ◌%◌, ◌^◌, ◌≤◌, ◌≡◌, arith, inl, inr, ◌++◌, Option, some, drop, length, length-append,
  length-drop,
}
use netfilum.Prelude.Texts.{Bytes}
use netfilum.Prelude.Results.{ok, Result-cases}
use netfilum.Server.Fs.{Fs}
use netfilum.Server.Fs.View.{View, IsFileSystem}
use netfilum.Server.Resolve.{RpcServer}
use netfilum.Server.Files.{read_file}
use netfilum.Server.Files.Contents.{HasRead, read_file-content}
use netfilum.Server.Dispatch.{dispatch}
use netfilum.Client.Context.{Environment, call}
use netfilum.Client.Served.{served}
use netfilum.Client.Operations.{Opened, read, copy_read}

module _ (E : Environment) (F : Fs) (V : View F) (L : IsFileSystem F V) (server : RpcServer) where
  abbrev pub Reading : Type 0
  Reading = Opened (served E F server)

  -- The buffer has got bytes of the file from its first place on, and keeps its length.
  abbrev pub HasFetched : Bytes → ℕ → Reading → Option (Bytes × ℕ) → Type 0
  HasFetched buffer offset o x =
      (payload : Bytes) × HasRead F V L server o.context.path offset (length buffer % 2 ^ 32)
        o.mounted.world payload
      × (x ≡ some (payload ++ drop (length payload) buffer, length payload))
      × (length (payload ++ drop (length payload) buffer) ≡ length buffer)

  -- Where a read from a server succeeds, it does not panic: the bytes that the server has read from
  -- the file stand at the start of the buffer, the rest of the buffer is as it was, and the count is
  -- theirs.
  pub read-HasFetched :
      (buffer : Bytes) (offset : ℕ) (o : Reading) (x : Option (Bytes × ℕ))
      → (read (served E F server) buffer offset o).0 ≡ ok x
      → HasFetched buffer offset o x
  unfolding read copy_read call dispatch
  read-HasFetched buffer offset o x h =
      elim (Result-cases
        (read_file F server o.context.path offset (length buffer % 2 ^ 32) o.mounted.world).0) [
          | inr (e, r) ↦ absurd (ground arith)
          | inl (payload, r) ↦
              let content =
                read_file-content F V L server o.context.path offset (length buffer % 2 ^ 32)
                  o.mounted.world payload r in
              let bound : length payload ≤ length buffer % 2 ^ 32 = content.5 in
              (
                payload,
                content,
                ground arith,
                ground (
                  arith,
                  length-append payload (drop (length payload) buffer),
                  length-drop (length payload) buffer,
                ),
              )
        ]
