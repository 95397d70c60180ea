-- ===== src/Core/HidUsage.antt =====
-- `HidUsage` of crates/core/src/hid.rs, the wire form of a key.
mod Page
mod Letters
mod Function
mod Keypad
unfoldable pub use Page.*
pub use Letters.*
pub use Function.*
pub use Keypad.*
