-- ===== src/Network/Dns.antt =====
-- crates/pb-network/src/dns: the cache of each partition, the filter of addresses, what happens
-- when the resolver fails, the format of messages, and the sharing of a lookup by its callers.
pub mod Cache
pub mod Rebinding
pub mod Fallback
pub mod Wire
pub mod SingleFlight
