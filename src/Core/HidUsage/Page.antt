-- ===== src/Core/HidUsage/Page.antt =====
-- `HidUsage` of crates/core/src/hid.rs: a USB HID usage is its 16-bit number.
use Prim.Native.Nat.{bit_and}
use borderless.Base.{ℕ, Bool, ◌==◌, leb}

abbrev pub HidUsage : Type 0
HidUsage = ℕ

-- True for a usage on the Consumer page.
unfoldable pub is_consumer : HidUsage → Bool
is_consumer u = bit_and u 0xff00 == 0x0c00

-- True for a usage on the Keyboard/Keypad page.
unfoldable pub is_keyboard : HidUsage → Bool
is_keyboard u = leb u 0xff
