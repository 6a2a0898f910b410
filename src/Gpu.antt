-- ===== src/Gpu.antt =====
-- crates/pb-gpu: the coordinator's epochs, the command queues, the memory budget and the clock.
pub mod Coordinator
pub mod Queue
pub mod Budget
pub mod Timing
pub mod Recovery
