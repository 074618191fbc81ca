-- ===== src/Lib.antt =====
-- netfilum: a file system that a Windows client mounts and a Linux daemon serves.
--
-- The client turns each operation of the mounted file system into a request; the request is
-- encrypted with a key from the password and sent on a connection of its own; the server resolves
-- the path below its root, calls the operating system and answers. A second connection, with no
-- messages, tells the client when the server has gone.
--
-- * Protocol (src/protocol.rs): the messages, as data types and records of the same names, and
--   the errors between `io::Error` and the wire (Protocol/Errors).
-- * Rpc (src/rpc.rs): `RpcCipher`, `read_message` and `write_message` over any stream.
--   Rpc/Buffer is a stream of two byte lists, Rpc/Frames and Rpc/RoundTrip have the laws.
-- * Paths (of `std::path`, for Unix): the components that the code of the server uses.
-- * Cli (src/cli.rs): the colors and the lines for the terminal, over standard error as a
--   parameter.
-- * Server (crates/netfilum-server): Server/Main is main.rs; Server/Path is
--   `normalize_relative_path` with its specification; Server/Resolve, Server/Attributes,
--   Server/Times, Server/Files, Server/Dispatch, Server/Serve and Server/Root are the functions
--   of server.rs of the same names, `serve` as a function of the connections that arrive, which may
--   be silent: at such a one the loop waits for ever.
--   Server/Fs is the operating system as a record of calls, Server/Fs/View what the proofs about
--   contents take from its documentation, and Server/Fs/Memory a disk in memory for the tests.
--   Server/Contract says for each request, in terms of that view, what an answer means and what
--   becomes of the disk; its modules take the dispatch against it. Server/Calls is an operating
--   system that also keeps a list of the calls with their paths.
-- * Client (crates/netfilum-client): Client/Main is main.rs, Client/RpcClient is rpc_client.rs
--   and Client/Path is path.rs. The parts of mount.rs are Client/Times, Client/Attributes,
--   Client/Context with the requests, Client/Operations with the operations of
--   `FileSystemContext`, Client/MountState with the state that the threads share and their
--   steps, the monitor's thread among them, Client/Launch with the server in WSL and a shell's
--   reading of its command line, Client/Descriptor with the security descriptor, and Client/Run
--   with the order of the steps of `run_mount` and `run_up`.
-- * The operations taken together: Client/Operations/Performed names them, Requests has the
--   requests that each may make, Replies what each returns, Growing what they do to the state of
--   the mount, Reported and Failures where their errors come from, and Matching compares them
--   over two servers.
-- * Where the parts meet: Client/Peer is a stream whose other end is the server's loop,
--   Client/Session are requests one after another, Client/Served gives the client's operations a
--   server that answers directly, and Client/Networked gives them one behind the encrypted stream.
--
-- An operation is a function from a state to a result and a state, since what was done before an
-- error stays done. A text is the list of its bytes in UTF-8, bytes are numbers below 256, and a
-- machine integer is a natural number whose wrap-around is written out as in a release build.
-- Parameters stand for what is not in this repository: the operating system (`Fs`), postcard
-- (`Codec`), aes-gcm, argon2 and blake3 (`Crypto`), TCP (`Wire`), standard error (`Stderr`), the
-- Windows API (`Windows`), the clock and the child of `netfilum up` (`System`), and winfsp with the
-- errors and the directory buffers (`Environment`); a nonce is an argument of what uses it. Fuel
-- bounds the two loops that wait for the end of a connection, which by their nature may wait for
-- ever, and the wait for the server, for which 226 turns are enough.
--
-- Not modelled: how clap reads the command line, the vendored bindings, other processes that
-- change the disk between two calls, the times that a read or a listing changes, and the trailing
-- slash of the root joined with an empty path.
pub mod Prelude
pub mod Protocol
pub mod Paths
pub mod Rpc
pub mod Server
pub mod Client
pub mod Cli
