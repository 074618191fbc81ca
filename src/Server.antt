-- ===== src/Server.antt =====
-- crates/netfilum-server: the daemon that serves a directory.
pub mod Path
pub mod Fs
pub mod Times
pub mod Attributes
pub mod Resolve
pub mod Files
pub mod Dispatch
pub mod Calls
pub mod Contract
pub mod Serve
pub mod Root
pub mod Main
pub mod Sample
pub mod Codecs
mod Tests
mod ContentTests
mod ServeTests
mod ContractTests
