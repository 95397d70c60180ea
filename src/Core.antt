-- ===== src/Core.antt =====
-- crates/core: the protocol types, with no behaviour but the modifier masks and usage pages.
pub mod Node
pub mod HidUsage
pub mod ModifierMask
pub mod Input
pub mod Clipboard
pub mod Wire
