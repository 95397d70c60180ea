-- ===== src/Pal/X11.antt =====
-- crates/pal-x11/src/keymap.rs: HID usages and X11 keysyms.
pub mod Capture
pub mod Emit
pub mod Scrolls
pub mod Loopback
pub mod Roundtrip
mod Tests
use borderless.Base.{
  ℕ, ◌+◌, ◌-◌, ◌%◌, ◌^◌, Bool, ◌&&◌, Option, none, some, List, [], ◌∷◌, ◌==◌, leb, if◌then◌else◌,
}
use borderless.Core.HidUsage
use borderless.Core.HidUsage.{HidUsage}
use borderless.Pal.Arms.{match_arms, or_else, within}

unfoldable pub alpha_to_keysym : ℕ → Option ℕ
unfolding within
alpha_to_keysym usage = if within 0x04 0x1D usage then some (0x0061 + (usage - 0x04)) else none

unfoldable pub digit_to_keysym : ℕ → Option ℕ
unfolding within
digit_to_keysym usage =
    if within 0x1E 0x27 usage
    then some (0x0030 + (if usage == 0x27 then 0 else usage - 0x1E + 1))
    else none

abbrev pub keysym_arms : List (ℕ × ℕ)
keysym_arms =
    (HidUsage.enter, 0xff0d)
    ∷ (HidUsage.escape, 0xff1b)
    ∷ (HidUsage.backspace, 0xff08)
    ∷ (HidUsage.tab, 0xff09)
    ∷ (HidUsage.space, 0x0020)
    ∷ (HidUsage.minus, 0x002d)
    ∷ (HidUsage.equal, 0x003d)
    ∷ (HidUsage.left_bracket, 0x005b)
    ∷ (HidUsage.right_bracket, 0x005d)
    ∷ (HidUsage.backslash, 0x005c)
    ∷ (HidUsage.semicolon, 0x003b)
    ∷ (HidUsage.apostrophe, 0x0027)
    ∷ (HidUsage.grave, 0x0060)
    ∷ (HidUsage.comma, 0x002c)
    ∷ (HidUsage.period, 0x002e)
    ∷ (HidUsage.slash, 0x002f)
    ∷ (HidUsage.caps_lock, 0xffe5)
    ∷ (HidUsage.f1, 0xffbe)
    ∷ (HidUsage.f2, 0xffbf)
    ∷ (HidUsage.f3, 0xffc0)
    ∷ (HidUsage.f4, 0xffc1)
    ∷ (HidUsage.f5, 0xffc2)
    ∷ (HidUsage.f6, 0xffc3)
    ∷ (HidUsage.f7, 0xffc4)
    ∷ (HidUsage.f8, 0xffc5)
    ∷ (HidUsage.f9, 0xffc6)
    ∷ (HidUsage.f10, 0xffc7)
    ∷ (HidUsage.f11, 0xffc8)
    ∷ (HidUsage.f12, 0xffc9)
    ∷ (HidUsage.f13, 0xffca)
    ∷ (HidUsage.f14, 0xffcb)
    ∷ (HidUsage.f15, 0xffcc)
    ∷ (HidUsage.f16, 0xffcd)
    ∷ (HidUsage.f17, 0xffce)
    ∷ (HidUsage.f18, 0xffcf)
    ∷ (HidUsage.f19, 0xffd0)
    ∷ (HidUsage.f20, 0xffd1)
    ∷ (HidUsage.f21, 0xffd2)
    ∷ (HidUsage.f22, 0xffd3)
    ∷ (HidUsage.f23, 0xffd4)
    ∷ (HidUsage.f24, 0xffd5)
    ∷ (HidUsage.print_screen, 0xff61)
    ∷ (HidUsage.scroll_lock, 0xff14)
    ∷ (HidUsage.pause, 0xff13)
    ∷ (HidUsage.insert, 0xff63)
    ∷ (HidUsage.home, 0xff50)
    ∷ (HidUsage.page_up, 0xff55)
    ∷ (HidUsage.delete, 0xffff)
    ∷ (HidUsage.end, 0xff57)
    ∷ (HidUsage.page_down, 0xff56)
    ∷ (HidUsage.right, 0xff53)
    ∷ (HidUsage.left, 0xff51)
    ∷ (HidUsage.down, 0xff54)
    ∷ (HidUsage.up, 0xff52)
    ∷ (HidUsage.num_lock, 0xff7f)
    ∷ (HidUsage.kp_slash, 0xffaf)
    ∷ (HidUsage.kp_asterisk, 0xffaa)
    ∷ (HidUsage.kp_minus, 0xffad)
    ∷ (HidUsage.kp_plus, 0xffab)
    ∷ (HidUsage.kp_enter, 0xff8d)
    ∷ (HidUsage.kp_1, 0xffb1)
    ∷ (HidUsage.kp_2, 0xffb2)
    ∷ (HidUsage.kp_3, 0xffb3)
    ∷ (HidUsage.kp_4, 0xffb4)
    ∷ (HidUsage.kp_5, 0xffb5)
    ∷ (HidUsage.kp_6, 0xffb6)
    ∷ (HidUsage.kp_7, 0xffb7)
    ∷ (HidUsage.kp_8, 0xffb8)
    ∷ (HidUsage.kp_9, 0xffb9)
    ∷ (HidUsage.kp_0, 0xffb0)
    ∷ (HidUsage.kp_period, 0xffae)
    ∷ (HidUsage.application, 0xff67)
    ∷ (HidUsage.lctrl, 0xffe3)
    ∷ (HidUsage.lshift, 0xffe1)
    ∷ (HidUsage.lalt, 0xffe9)
    ∷ (HidUsage.lgui, 0xffeb)
    ∷ (HidUsage.rctrl, 0xffe4)
    ∷ (HidUsage.rshift, 0xffe2)
    ∷ (HidUsage.ralt, 0xffea)
    ∷ (HidUsage.rgui, 0xffec)
    ∷ []

-- The `match` of `hid_to_keysym`.
unfoldable pub special_keysym : HidUsage → Option ℕ
unfolding match_arms
special_keysym usage = match_arms usage keysym_arms

unfoldable pub hid_to_keysym : HidUsage → Option ℕ
unfolding or_else
hid_to_keysym usage =
    or_else (alpha_to_keysym usage) (or_else (digit_to_keysym usage) (special_keysym usage))

abbrev pub keysym_back : List (ℕ × HidUsage)
keysym_back =
    (0xff0d, HidUsage.enter)
    ∷ (0xff1b, HidUsage.escape)
    ∷ (0xff08, HidUsage.backspace)
    ∷ (0xff09, HidUsage.tab)
    ∷ (0x0020, HidUsage.space)
    ∷ (0x002d, HidUsage.minus)
    ∷ (0x003d, HidUsage.equal)
    ∷ (0x005b, HidUsage.left_bracket)
    ∷ (0x005d, HidUsage.right_bracket)
    ∷ (0x005c, HidUsage.backslash)
    ∷ (0x003b, HidUsage.semicolon)
    ∷ (0x0027, HidUsage.apostrophe)
    ∷ (0x0060, HidUsage.grave)
    ∷ (0x002c, HidUsage.comma)
    ∷ (0x002e, HidUsage.period)
    ∷ (0x002f, HidUsage.slash)
    ∷ (0xffe5, HidUsage.caps_lock)
    ∷ (0xffbe, HidUsage.f1)
    ∷ (0xffbf, HidUsage.f2)
    ∷ (0xffc0, HidUsage.f3)
    ∷ (0xffc1, HidUsage.f4)
    ∷ (0xffc2, HidUsage.f5)
    ∷ (0xffc3, HidUsage.f6)
    ∷ (0xffc4, HidUsage.f7)
    ∷ (0xffc5, HidUsage.f8)
    ∷ (0xffc6, HidUsage.f9)
    ∷ (0xffc7, HidUsage.f10)
    ∷ (0xffc8, HidUsage.f11)
    ∷ (0xffc9, HidUsage.f12)
    ∷ (0xff63, HidUsage.insert)
    ∷ (0xff50, HidUsage.home)
    ∷ (0xff55, HidUsage.page_up)
    ∷ (0xffff, HidUsage.delete)
    ∷ (0xff57, HidUsage.end)
    ∷ (0xff56, HidUsage.page_down)
    ∷ (0xff53, HidUsage.right)
    ∷ (0xff51, HidUsage.left)
    ∷ (0xff54, HidUsage.down)
    ∷ (0xff52, HidUsage.up)
    ∷ (0xff7f, HidUsage.num_lock)
    ∷ (0xffe3, HidUsage.lctrl)
    ∷ (0xffe1, HidUsage.lshift)
    ∷ (0xffe9, HidUsage.lalt)
    ∷ (0xffeb, HidUsage.lgui)
    ∷ (0xffe4, HidUsage.rctrl)
    ∷ (0xffe2, HidUsage.rshift)
    ∷ (0xffea, HidUsage.ralt)
    ∷ (0xffec, HidUsage.rgui)
    ∷ []

-- The `match` of `keysym_to_hid`.
unfoldable pub special_hid : ℕ → Option HidUsage
unfolding match_arms
special_hid keysym = match_arms keysym keysym_back

unfoldable pub keysym_to_hid : ℕ → Option HidUsage
unfolding within
keysym_to_hid keysym =
    if within 0x0061 0x007a keysym
    then some ((keysym - 0x0061) % 2 ^ 16 + 0x04)
    else if within 0x0041 0x005a keysym
    then some ((keysym - 0x0041) % 2 ^ 16 + 0x04)
    else if keysym == 0x0030
    then some HidUsage.key_0
    else if within 0x0031 0x0039 keysym
    then some ((keysym - 0x0031) % 2 ^ 16 + 0x1E)
    else special_hid keysym
