-- ===== src/Pal/Windows.antt =====
-- crates/pal-windows/src/keymap.rs: HID usages, virtual keys and scan codes of Windows.
pub mod Capture
pub mod Emit
pub mod Wheel
pub mod Roundtrip
mod Tests
use borderless.Base.{
  ℕ, zero, suc, ◌+◌, ◌-◌, ◌%◌, ◌^◌, Bool, true, false, ◌&&◌, Option, none, some, List, [], ◌∷◌,
  ◌==◌, leb, if◌then◌else◌,
}
use borderless.Core.HidUsage
use borderless.Core.HidUsage.{HidUsage}
use borderless.Pal.Arms.{match_arms, within}

abbrev pub WinKey : Type 0
WinKey = ℕ × ℕ × Bool

-- `LETTER_SCANCODES`
abbrev pub letter_scancodes : List ℕ
letter_scancodes =
    0x1E ∷ 0x30 ∷ 0x2E ∷ 0x20 ∷ 0x12 ∷ 0x21 ∷ 0x22 ∷ 0x23 ∷ 0x17 ∷ 0x24 ∷ 0x25 ∷ 0x26 ∷ 0x32 ∷ 0x31
    ∷ 0x18 ∷ 0x19 ∷ 0x10 ∷ 0x13 ∷ 0x1F ∷ 0x14 ∷ 0x16 ∷ 0x2F ∷ 0x11 ∷ 0x2D ∷ 0x15 ∷ 0x2C ∷ []

-- `DIGIT_SCANCODES`
abbrev pub digit_scancodes : List ℕ
digit_scancodes = 0x02 ∷ 0x03 ∷ 0x04 ∷ 0x05 ∷ 0x06 ∷ 0x07 ∷ 0x08 ∷ 0x09 ∷ 0x0A ∷ 0x0B ∷ []

-- An array at an index, which is in range here.
unfoldable pub index : List ℕ → ℕ → ℕ
index [] i = 0
index (x ∷ xs) zero = x
index (x ∷ xs) (suc i) = index xs i

abbrev pub win_arms : List (ℕ × WinKey)
win_arms =
    (HidUsage.enter, (0x0D, 0x1C, false))
    ∷ (HidUsage.escape, (0x1B, 0x01, false))
    ∷ (HidUsage.backspace, (0x08, 0x0E, false))
    ∷ (HidUsage.tab, (0x09, 0x0F, false))
    ∷ (HidUsage.space, (0x20, 0x39, false))
    ∷ (HidUsage.minus, (0xBD, 0x0C, false))
    ∷ (HidUsage.equal, (0xBB, 0x0D, false))
    ∷ (HidUsage.left_bracket, (0xDB, 0x1A, false))
    ∷ (HidUsage.right_bracket, (0xDD, 0x1B, false))
    ∷ (HidUsage.backslash, (0xDC, 0x2B, false))
    ∷ (HidUsage.semicolon, (0xBA, 0x27, false))
    ∷ (HidUsage.apostrophe, (0xDE, 0x28, false))
    ∷ (HidUsage.grave, (0xC0, 0x29, false))
    ∷ (HidUsage.comma, (0xBC, 0x33, false))
    ∷ (HidUsage.period, (0xBE, 0x34, false))
    ∷ (HidUsage.slash, (0xBF, 0x35, false))
    ∷ (HidUsage.caps_lock, (0x14, 0x3A, false))
    ∷ (HidUsage.f1, (0x70, 0x3B, false))
    ∷ (HidUsage.f2, (0x71, 0x3C, false))
    ∷ (HidUsage.f3, (0x72, 0x3D, false))
    ∷ (HidUsage.f4, (0x73, 0x3E, false))
    ∷ (HidUsage.f5, (0x74, 0x3F, false))
    ∷ (HidUsage.f6, (0x75, 0x40, false))
    ∷ (HidUsage.f7, (0x76, 0x41, false))
    ∷ (HidUsage.f8, (0x77, 0x42, false))
    ∷ (HidUsage.f9, (0x78, 0x43, false))
    ∷ (HidUsage.f10, (0x79, 0x44, false))
    ∷ (HidUsage.f11, (0x7A, 0x57, false))
    ∷ (HidUsage.f12, (0x7B, 0x58, false))
    ∷ (HidUsage.print_screen, (0x2C, 0x37, true))
    ∷ (HidUsage.scroll_lock, (0x91, 0x46, false))
    ∷ (HidUsage.pause, (0x13, 0x45, false))
    ∷ (HidUsage.insert, (0x2D, 0x52, true))
    ∷ (HidUsage.home, (0x24, 0x47, true))
    ∷ (HidUsage.page_up, (0x21, 0x49, true))
    ∷ (HidUsage.delete, (0x2E, 0x53, true))
    ∷ (HidUsage.end, (0x23, 0x4F, true))
    ∷ (HidUsage.page_down, (0x22, 0x51, true))
    ∷ (HidUsage.right, (0x27, 0x4D, true))
    ∷ (HidUsage.left, (0x25, 0x4B, true))
    ∷ (HidUsage.down, (0x28, 0x50, true))
    ∷ (HidUsage.up, (0x26, 0x48, true))
    ∷ (HidUsage.num_lock, (0x90, 0x45, true))
    ∷ (HidUsage.kp_slash, (0x6F, 0x35, true))
    ∷ (HidUsage.kp_asterisk, (0x6A, 0x37, false))
    ∷ (HidUsage.kp_minus, (0x6D, 0x4A, false))
    ∷ (HidUsage.kp_plus, (0x6B, 0x4E, false))
    ∷ (HidUsage.kp_enter, (0x0D, 0x1C, true))
    ∷ (HidUsage.kp_1, (0x61, 0x4F, false))
    ∷ (HidUsage.kp_2, (0x62, 0x50, false))
    ∷ (HidUsage.kp_3, (0x63, 0x51, false))
    ∷ (HidUsage.kp_4, (0x64, 0x4B, false))
    ∷ (HidUsage.kp_5, (0x65, 0x4C, false))
    ∷ (HidUsage.kp_6, (0x66, 0x4D, false))
    ∷ (HidUsage.kp_7, (0x67, 0x47, false))
    ∷ (HidUsage.kp_8, (0x68, 0x48, false))
    ∷ (HidUsage.kp_9, (0x69, 0x49, false))
    ∷ (HidUsage.kp_0, (0x60, 0x52, false))
    ∷ (HidUsage.kp_period, (0x6E, 0x53, false))
    ∷ (HidUsage.application, (0x5D, 0x5D, true))
    ∷ (HidUsage.lctrl, (0xA2, 0x1D, false))
    ∷ (HidUsage.lshift, (0xA0, 0x2A, false))
    ∷ (HidUsage.lalt, (0xA4, 0x38, false))
    ∷ (HidUsage.lgui, (0x5B, 0x5B, true))
    ∷ (HidUsage.rctrl, (0xA3, 0x1D, true))
    ∷ (HidUsage.rshift, (0xA1, 0x36, false))
    ∷ (HidUsage.ralt, (0xA5, 0x38, true))
    ∷ (HidUsage.rgui, (0x5C, 0x5C, true))
    ∷ []

-- The `match` of `hid_to_win`.
unfoldable pub special_win : HidUsage → Option WinKey
unfolding match_arms
special_win hid = match_arms hid win_arms

unfoldable pub hid_to_win : HidUsage → Option WinKey
unfolding within index
hid_to_win hid =
    if within 0x04 0x1D hid
    then some (0x41 + (hid - 0x04), index letter_scancodes (hid - 0x04), false)
    else if within 0x1E 0x27 hid
    then some (
      (if hid == 0x27 then 0x30 else 0x31 + (hid - 0x1E)),
      index digit_scancodes (hid - 0x1E),
      false,
    )
    else special_win hid

abbrev pub vk_back : List (ℕ × HidUsage)
vk_back =
    (0x0D, HidUsage.enter)
    ∷ (0x1B, HidUsage.escape)
    ∷ (0x08, HidUsage.backspace)
    ∷ (0x09, HidUsage.tab)
    ∷ (0x20, HidUsage.space)
    ∷ (0xBD, HidUsage.minus)
    ∷ (0xBB, HidUsage.equal)
    ∷ (0xDB, HidUsage.left_bracket)
    ∷ (0xDD, HidUsage.right_bracket)
    ∷ (0xDC, HidUsage.backslash)
    ∷ (0xBA, HidUsage.semicolon)
    ∷ (0xDE, HidUsage.apostrophe)
    ∷ (0xC0, HidUsage.grave)
    ∷ (0xBC, HidUsage.comma)
    ∷ (0xBE, HidUsage.period)
    ∷ (0xBF, HidUsage.slash)
    ∷ (0x14, HidUsage.caps_lock)
    ∷ (0x70, HidUsage.f1)
    ∷ (0x71, HidUsage.f2)
    ∷ (0x72, HidUsage.f3)
    ∷ (0x73, HidUsage.f4)
    ∷ (0x74, HidUsage.f5)
    ∷ (0x75, HidUsage.f6)
    ∷ (0x76, HidUsage.f7)
    ∷ (0x77, HidUsage.f8)
    ∷ (0x78, HidUsage.f9)
    ∷ (0x79, HidUsage.f10)
    ∷ (0x7A, HidUsage.f11)
    ∷ (0x7B, HidUsage.f12)
    ∷ (0x2C, HidUsage.print_screen)
    ∷ (0x91, HidUsage.scroll_lock)
    ∷ (0x13, HidUsage.pause)
    ∷ (0x2D, HidUsage.insert)
    ∷ (0x24, HidUsage.home)
    ∷ (0x21, HidUsage.page_up)
    ∷ (0x2E, HidUsage.delete)
    ∷ (0x23, HidUsage.end)
    ∷ (0x22, HidUsage.page_down)
    ∷ (0x27, HidUsage.right)
    ∷ (0x25, HidUsage.left)
    ∷ (0x28, HidUsage.down)
    ∷ (0x26, HidUsage.up)
    ∷ (0x90, HidUsage.num_lock)
    ∷ (0xA2, HidUsage.lctrl)
    ∷ (0xA0, HidUsage.lshift)
    ∷ (0xA4, HidUsage.lalt)
    ∷ (0x5B, HidUsage.lgui)
    ∷ (0xA3, HidUsage.rctrl)
    ∷ (0xA1, HidUsage.rshift)
    ∷ (0xA5, HidUsage.ralt)
    ∷ (0x5C, HidUsage.rgui)
    ∷ []

-- The `match` of `vk_to_hid`.
unfoldable pub special_vk : ℕ → Option HidUsage
unfolding match_arms
special_vk vk = match_arms vk vk_back

unfoldable pub vk_to_hid : ℕ → Option HidUsage
unfolding within
vk_to_hid vk =
    if within 0x41 0x5A vk
    then some ((vk - 0x41) % 2 ^ 16 + 0x04)
    else if vk == 0x30
    then some HidUsage.key_0
    else if within 0x31 0x39 vk
    then some ((vk - 0x31) % 2 ^ 16 + 0x1E)
    else special_vk vk
