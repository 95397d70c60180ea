-- ===== src/Pal/Macos.antt =====
-- crates/pal-macos/src/keymap.rs: HID usages and the virtual key codes of macOS.
pub mod Capture
pub mod Emit
pub mod Roundtrip
use borderless.Base.{ℕ, Option, List, [], ◌∷◌}
use borderless.Core.HidUsage
use borderless.Core.HidUsage.{HidUsage}
use borderless.Pal.Arms.{match_arms}

abbrev pub mac_arms : List (ℕ × ℕ)
mac_arms =
    (HidUsage.key_a, 0x00)
    ∷ (HidUsage.key_b, 0x0B)
    ∷ (HidUsage.key_c, 0x08)
    ∷ (HidUsage.key_d, 0x02)
    ∷ (HidUsage.key_e, 0x0E)
    ∷ (HidUsage.key_f, 0x03)
    ∷ (HidUsage.key_g, 0x05)
    ∷ (HidUsage.key_h, 0x04)
    ∷ (HidUsage.key_i, 0x22)
    ∷ (HidUsage.key_j, 0x26)
    ∷ (HidUsage.key_k, 0x28)
    ∷ (HidUsage.key_l, 0x25)
    ∷ (HidUsage.key_m, 0x2E)
    ∷ (HidUsage.key_n, 0x2D)
    ∷ (HidUsage.key_o, 0x1F)
    ∷ (HidUsage.key_p, 0x23)
    ∷ (HidUsage.key_q, 0x0C)
    ∷ (HidUsage.key_r, 0x0F)
    ∷ (HidUsage.key_s, 0x01)
    ∷ (HidUsage.key_t, 0x11)
    ∷ (HidUsage.key_u, 0x20)
    ∷ (HidUsage.key_v, 0x09)
    ∷ (HidUsage.key_w, 0x0D)
    ∷ (HidUsage.key_x, 0x07)
    ∷ (HidUsage.key_y, 0x10)
    ∷ (HidUsage.key_z, 0x06)
    ∷ (HidUsage.key_1, 0x12)
    ∷ (HidUsage.key_2, 0x13)
    ∷ (HidUsage.key_3, 0x14)
    ∷ (HidUsage.key_4, 0x15)
    ∷ (HidUsage.key_5, 0x17)
    ∷ (HidUsage.key_6, 0x16)
    ∷ (HidUsage.key_7, 0x1A)
    ∷ (HidUsage.key_8, 0x1C)
    ∷ (HidUsage.key_9, 0x19)
    ∷ (HidUsage.key_0, 0x1D)
    ∷ (HidUsage.enter, 0x24)
    ∷ (HidUsage.escape, 0x35)
    ∷ (HidUsage.backspace, 0x33)
    ∷ (HidUsage.tab, 0x30)
    ∷ (HidUsage.space, 0x31)
    ∷ (HidUsage.minus, 0x1B)
    ∷ (HidUsage.equal, 0x18)
    ∷ (HidUsage.left_bracket, 0x21)
    ∷ (HidUsage.right_bracket, 0x1E)
    ∷ (HidUsage.backslash, 0x2A)
    ∷ (HidUsage.semicolon, 0x29)
    ∷ (HidUsage.apostrophe, 0x27)
    ∷ (HidUsage.grave, 0x32)
    ∷ (HidUsage.comma, 0x2B)
    ∷ (HidUsage.period, 0x2F)
    ∷ (HidUsage.slash, 0x2C)
    ∷ (HidUsage.caps_lock, 0x39)
    ∷ (HidUsage.f1, 0x7A)
    ∷ (HidUsage.f2, 0x78)
    ∷ (HidUsage.f3, 0x63)
    ∷ (HidUsage.f4, 0x76)
    ∷ (HidUsage.f5, 0x60)
    ∷ (HidUsage.f6, 0x61)
    ∷ (HidUsage.f7, 0x62)
    ∷ (HidUsage.f8, 0x64)
    ∷ (HidUsage.f9, 0x65)
    ∷ (HidUsage.f10, 0x6D)
    ∷ (HidUsage.f11, 0x67)
    ∷ (HidUsage.f12, 0x6F)
    ∷ (HidUsage.insert, 0x72)
    ∷ (HidUsage.home, 0x73)
    ∷ (HidUsage.page_up, 0x74)
    ∷ (HidUsage.delete, 0x75)
    ∷ (HidUsage.end, 0x77)
    ∷ (HidUsage.page_down, 0x79)
    ∷ (HidUsage.right, 0x7C)
    ∷ (HidUsage.left, 0x7B)
    ∷ (HidUsage.down, 0x7D)
    ∷ (HidUsage.up, 0x7E)
    ∷ (HidUsage.lctrl, 0x3B)
    ∷ (HidUsage.lshift, 0x38)
    ∷ (HidUsage.lalt, 0x3A)
    ∷ (HidUsage.lgui, 0x37)
    ∷ (HidUsage.rctrl, 0x3E)
    ∷ (HidUsage.rshift, 0x3C)
    ∷ (HidUsage.ralt, 0x3D)
    ∷ (HidUsage.rgui, 0x36)
    ∷ []

unfoldable pub hid_to_mac : HidUsage → Option ℕ
unfolding match_arms
hid_to_mac hid = match_arms hid mac_arms

abbrev pub mac_back : List (ℕ × HidUsage)
mac_back =
    (0x00, HidUsage.key_a)
    ∷ (0x0B, HidUsage.key_b)
    ∷ (0x08, HidUsage.key_c)
    ∷ (0x02, HidUsage.key_d)
    ∷ (0x0E, HidUsage.key_e)
    ∷ (0x03, HidUsage.key_f)
    ∷ (0x05, HidUsage.key_g)
    ∷ (0x04, HidUsage.key_h)
    ∷ (0x22, HidUsage.key_i)
    ∷ (0x26, HidUsage.key_j)
    ∷ (0x28, HidUsage.key_k)
    ∷ (0x25, HidUsage.key_l)
    ∷ (0x2E, HidUsage.key_m)
    ∷ (0x2D, HidUsage.key_n)
    ∷ (0x1F, HidUsage.key_o)
    ∷ (0x23, HidUsage.key_p)
    ∷ (0x0C, HidUsage.key_q)
    ∷ (0x0F, HidUsage.key_r)
    ∷ (0x01, HidUsage.key_s)
    ∷ (0x11, HidUsage.key_t)
    ∷ (0x20, HidUsage.key_u)
    ∷ (0x09, HidUsage.key_v)
    ∷ (0x0D, HidUsage.key_w)
    ∷ (0x07, HidUsage.key_x)
    ∷ (0x10, HidUsage.key_y)
    ∷ (0x06, HidUsage.key_z)
    ∷ (0x12, HidUsage.key_1)
    ∷ (0x13, HidUsage.key_2)
    ∷ (0x14, HidUsage.key_3)
    ∷ (0x15, HidUsage.key_4)
    ∷ (0x17, HidUsage.key_5)
    ∷ (0x16, HidUsage.key_6)
    ∷ (0x1A, HidUsage.key_7)
    ∷ (0x1C, HidUsage.key_8)
    ∷ (0x19, HidUsage.key_9)
    ∷ (0x1D, HidUsage.key_0)
    ∷ (0x24, HidUsage.enter)
    ∷ (0x35, HidUsage.escape)
    ∷ (0x33, HidUsage.backspace)
    ∷ (0x30, HidUsage.tab)
    ∷ (0x31, HidUsage.space)
    ∷ (0x1B, HidUsage.minus)
    ∷ (0x18, HidUsage.equal)
    ∷ (0x21, HidUsage.left_bracket)
    ∷ (0x1E, HidUsage.right_bracket)
    ∷ (0x2A, HidUsage.backslash)
    ∷ (0x29, HidUsage.semicolon)
    ∷ (0x27, HidUsage.apostrophe)
    ∷ (0x32, HidUsage.grave)
    ∷ (0x2B, HidUsage.comma)
    ∷ (0x2F, HidUsage.period)
    ∷ (0x2C, HidUsage.slash)
    ∷ (0x39, HidUsage.caps_lock)
    ∷ (0x7A, HidUsage.f1)
    ∷ (0x78, HidUsage.f2)
    ∷ (0x63, HidUsage.f3)
    ∷ (0x76, HidUsage.f4)
    ∷ (0x60, HidUsage.f5)
    ∷ (0x61, HidUsage.f6)
    ∷ (0x62, HidUsage.f7)
    ∷ (0x64, HidUsage.f8)
    ∷ (0x65, HidUsage.f9)
    ∷ (0x6D, HidUsage.f10)
    ∷ (0x67, HidUsage.f11)
    ∷ (0x6F, HidUsage.f12)
    ∷ (0x72, HidUsage.insert)
    ∷ (0x73, HidUsage.home)
    ∷ (0x74, HidUsage.page_up)
    ∷ (0x75, HidUsage.delete)
    ∷ (0x77, HidUsage.end)
    ∷ (0x79, HidUsage.page_down)
    ∷ (0x7C, HidUsage.right)
    ∷ (0x7B, HidUsage.left)
    ∷ (0x7D, HidUsage.down)
    ∷ (0x7E, HidUsage.up)
    ∷ (0x3B, HidUsage.lctrl)
    ∷ (0x38, HidUsage.lshift)
    ∷ (0x3A, HidUsage.lalt)
    ∷ (0x37, HidUsage.lgui)
    ∷ (0x3E, HidUsage.rctrl)
    ∷ (0x3C, HidUsage.rshift)
    ∷ (0x3D, HidUsage.ralt)
    ∷ (0x36, HidUsage.rgui)
    ∷ []

unfoldable pub mac_to_hid : ℕ → Option HidUsage
unfolding match_arms
mac_to_hid kc = match_arms kc mac_back
