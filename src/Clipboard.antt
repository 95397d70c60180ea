-- ===== src/Clipboard.antt =====
-- crates/clipboard: the sync engine and the store of large payloads.
pub mod Engine
pub mod Lazy
