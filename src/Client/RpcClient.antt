-- ===== src/Client/RpcClient.antt =====
-- crates/netfilum-client/src/rpc_client.rs: requests to the server, and the monitor connection, over
-- a stream `W`. Addresses are the stream's.
use netfilum.Prelude.{ℕ, zero, suc, true, Option, none, some, [], ◌∷◌}
use netfilum.Prelude.Texts.{Text, Bytes}
use netfilum.Prelude.Results.{ok, err, Run, lift, map_ok, map_err, ◌>>=◌, ◌>>◌}
use netfilum.Protocol.{Request, Response, RpcResult}
use netfilum.Protocol.Errors.{IoError, IoResult, to_io_error}
use netfilum.Rpc.{Codec, Crypto, Wire, connection_data, connection_monitor, from_password}
use netfilum.Rpc.{read_message, write_message}

pub record RpcClient : Type 0 where
  pub addr : Text
  pub timeout : ℕ
  pub cipher : Bytes

unfoldable pub new_client : Crypto → Text → Text → IoResult RpcClient
new_client C addr password =
    map_ok (λ key. record { addr = addr; timeout = 5; cipher = key }) (from_password C password)

module _ (C : Crypto) (W : Wire) (requests : Codec Request)
    (responses : Codec (RpcResult Response)) where
  -- `RpcClient::send`; the nonce is what `generate_nonce` gives for the request.
  unfoldable pub send : RpcClient → Bytes → Request → Run W.State IoError Response
  unfolding to_io_error
  send client nonce request = do
    W.connect
    W.set_nodelay true
    W.set_read_timeout (some client.timeout)
    W.set_write_timeout (some client.timeout)
    W.write_all (connection_data ∷ [])
    write_message C W requests client.cipher nonce request
    response ← read_message C W responses client.cipher
    lift (map_err to_io_error response)

module _ (W : Wire) where
  -- `MonitorConnection::connect`
  unfoldable pub connect_monitor : Run W.State IoError Unit
  connect_monitor = do
    W.connect
    W.write_all (connection_monitor ∷ [])
    W.set_read_timeout none
    W.set_write_timeout none

  -- `MonitorConnection::wait_for_disconnect`; `none` where it still waits after that many reads.
  unfoldable pub wait_for_disconnect : ℕ → W.State → Option (IoResult (Unit {0}))
  wait_for_disconnect zero st = none
  wait_for_disconnect (suc n) st = elim (W.read 1 st).0 [
    | ok [] ↦ some (ok tt)
    | ok (b ∷ bs) ↦ wait_for_disconnect n (W.read 1 st).1
    | err e ↦ some (err e)
  ]

  -- `MonitorConnection::shutdown`
  unfoldable pub shutdown_monitor : Run W.State IoError Unit
  shutdown_monitor = W.shutdown
