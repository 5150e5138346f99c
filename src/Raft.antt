-- ===== src/Raft.antt =====
-- internal/raft: the consensus core. Each child models one file of the package, and the modules
-- below a child prove properties of it.
pub mod Types
pub mod Interfaces
pub mod Node
pub mod Log
pub mod Election
pub mod Replication
pub mod Apply
pub mod Snapshot
pub mod Frame
pub mod Steps
pub mod Cluster
pub mod Rpc
pub mod EntryCodec
pub mod FileStorage
mod Runs
