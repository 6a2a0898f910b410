-- ===== src/Tests.antt =====
-- Runs of the models at concrete inputs, and the theorems applied to them.
mod Config
mod Identity
mod Gpu
mod Network
mod Wire
mod Coordinator
mod Extensions
mod Ui
