-- ===== src/Network.antt =====
-- crates/pb-network: DNS, the blocklist, and the coordinator that requests and lookups pass.
pub mod Dns
pub mod Blocklist
pub mod Error
pub mod PartitionKey
pub mod Headers
pub mod Coordinator
