-- ===== src/Identity.antt =====
-- crates/pb-identity: profiles, their registry, the renderer scheduler and the tab lifecycle.
pub mod Profile
pub mod Scheduler
pub mod Registry
pub mod Suspension
pub mod Lifecycle
