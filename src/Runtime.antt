-- ===== src/Runtime.antt =====
-- The runtimes of crates/cli/src/runtime: the hub and the spokes.
pub mod Chunks
pub mod Hub
pub mod Spoke
pub mod Link
pub mod Bootstrap
