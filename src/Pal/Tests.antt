-- ===== src/Pal/Tests.antt =====
-- Single keys.
use borderless.Base.{◌≡◌, refl, true, some}
use borderless.Core.HidUsage
use borderless.Pal.X11.{hid_to_keysym, keysym_to_hid}
use borderless.Pal.Windows.{hid_to_win, vk_to_hid}
use borderless.Pal.Windows.Roundtrip.{back, vk_to_hid-hid_to_win}

keypad_one : hid_to_keysym HidUsage.kp_1 ≡ some 0xffb1
unfolding hid_to_keysym borderless.Pal.X11.alpha_to_keysym borderless.Pal.X11.digit_to_keysym
    borderless.Pal.X11.special_keysym
keypad_one = refl

keypad_enter : hid_to_win HidUsage.kp_enter ≡ some (0x0D, 0x1C, true)
unfolding hid_to_win borderless.Pal.Windows.special_win
keypad_enter = refl

vk_to_hid-hid_to_win_example : vk_to_hid 0x0D ≡ back HidUsage.kp_enter
vk_to_hid-hid_to_win_example = vk_to_hid-hid_to_win HidUsage.kp_enter 0x0D 0x1C true keypad_enter
