-- ===== src/Pal.antt =====
-- The platform layer: the key tables of crates/pal-x11, pal-windows and pal-macos.
pub mod Traits
pub mod Clipboard
pub mod Arms
pub mod X11
pub mod Windows
pub mod Macos
mod Tests
