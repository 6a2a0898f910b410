-- ===== src/Network/Blocklist.antt =====
-- crates/pb-network/src/blocklist: host rules and the tree that hosts are matched against, the
-- parameters that are stripped from URLs, and the list in use.
pub mod Rule
pub mod RadixTree
pub mod UrlStrip
pub mod Live
