-- ===== src/Client/Operations/RoundTrip.antt =====
-- A write and a read of crates/netfilum-client/src/mount.rs, one after the other, with the server of
-- crates/netfilum-server/src/server.rs behind them.
use netfilum.Prelude.{
  ℕ, ◌%◌, ◌^◌, ◌≤◌, ◌≡◌, arith, inl, inr, ◌++◌, Option, some, false, take, drop, length,
}
use netfilum.Prelude.Texts.{Bytes}
use netfilum.Prelude.Results.{ok, Result-cases}
use netfilum.Server.Fs.{Fs}
use netfilum.Server.Fs.View.{View, IsFileSystem}
use netfilum.Server.Resolve.{RpcServer}
use netfilum.Server.Files.{read_file, write_file}
use netfilum.Server.Files.Contents.{read_file-write_file}
use netfilum.Server.Dispatch.{dispatch}
use netfilum.Client.Attributes.{FileInfo}
use netfilum.Client.Context.{Environment, call}
use netfilum.Client.Served.{served}
use netfilum.Client.Operations.{Opened, read, write, write_payload}

-- The buffer begins with bytes that were written.
abbrev pub HasEcho : Bytes → Bytes → Option (Bytes × ℕ) → Type 0
HasEcho written buffer x =
    (n : ℕ) × (n ≤ length buffer) × (x ≡ some (take n written ++ drop n buffer, n))

module _ (E : Environment) (F : Fs) (V : View F) (L : IsFileSystem F V) (server : RpcServer) where
  -- Through one open file, what is written at an offset is what is read there: where both succeed, the
  -- buffer, no longer than the bytes that were written, begins with the first of these, as many as
  -- the read counts, and is else as it was.
  pub read-write :
      (written buffer : Bytes) (offset : ℕ) (o : Opened (served E F server))
      (w : ℕ × Option FileInfo) (x : Option (Bytes × ℕ))
      → (write (served E F server) written offset false false o).0 ≡ ok w
      → length buffer ≤ length written
      → (read
          (served E F server)
          buffer
          offset
          (write (served E F server) written offset false false o).1).0
        ≡ ok x
      → HasEcho written buffer x
  unfolding write write_payload read call dispatch
  read-write written buffer offset o w x h bound k =
      let asked = length buffer % 2 ^ 32 in
      let path = o.context.path in
      elim (Result-cases (write_file F server path offset written false o.mounted.world).0) [
        | inr (e, r) ↦ absurd (ground arith)
        | inl (response, r) ↦
            let t = (write_file F server path offset written false o.mounted.world).1 in
            elim (Result-cases (read_file F server path offset asked t).0) [
              | inr (e, g) ↦ absurd (ground arith)
              | inl (bytes, g) ↦
                  let echo =
                    read_file-write_file F V L server path offset asked written bytes
                      o.mounted.world response r (omega (arith, bound)) g in
                  (length bytes, omega (arith, echo.1), ground (arith, echo))
            ]
      ]
