-- ===== src/Core/ModifierMask.antt =====
-- `ModifierMask` of crates/core/src/hid.rs: the held modifier keys as the bits of a `u8`.
use Prim.Native.Nat.{bit_and, bit_or}
use borderless.Base.{ℕ, ◌-◌}

abbrev pub ModifierMask : Type 0
ModifierMask = ℕ

abbrev pub empty : ModifierMask
empty = 0

abbrev pub lctrl : ModifierMask
lctrl = 0b00000001

abbrev pub lshift : ModifierMask
lshift = 0b00000010

abbrev pub lalt : ModifierMask
lalt = 0b00000100

abbrev pub lgui : ModifierMask
lgui = 0b00001000

abbrev pub rctrl : ModifierMask
rctrl = 0b00010000

abbrev pub rshift : ModifierMask
rshift = 0b00100000

abbrev pub ralt : ModifierMask
ralt = 0b01000000

abbrev pub rgui : ModifierMask
rgui = 0b10000000

-- `m |= bit` and `m.insert(bit)`
unfoldable pub union : ModifierMask → ModifierMask → ModifierMask
union m bit = bit_or m bit

-- `m -= bit` and `m.remove(bit)`: the bits of `m` that are not in the 8-bit complement.
unfoldable pub difference : ModifierMask → ModifierMask → ModifierMask
difference m bit = bit_and m (0xff - bit)
