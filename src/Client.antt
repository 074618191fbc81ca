-- ===== src/Client.antt =====
-- crates/netfilum-client: the client that mounts the served directory.
pub mod RpcClient
pub mod Peer
pub mod Times
pub mod Attributes
pub mod Path
pub mod Launch
pub mod MountState
pub mod Context
pub mod Descriptor
pub mod Served
pub mod Session
pub mod Run
pub mod Main
pub mod Operations
pub mod Networked
mod Tests
pub mod Sample
mod OperationTests
mod DirectoryTests
mod NetworkTests
mod FailureTests
mod ContractTests
mod MountTests
mod RunTests
