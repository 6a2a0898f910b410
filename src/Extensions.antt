-- ===== src/Extensions.antt =====
-- crates/pb-extensions: the signed allowlist of browser extensions, and the controller that installs
-- and disables by it, and what Strict mode blocks.
pub mod Version
pub mod Encoding
pub mod Allowlist
pub mod Controller
pub mod Blocker
