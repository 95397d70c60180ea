-- ===== src/Core/HidUsage/Keypad.antt =====
-- Constants of `HidUsage` in crates/core/src/hid.rs: the keypad, the extended function row, modifier keys and consumer usages. They keep the source's order and
-- spelling, in lower case.
use borderless.Core.HidUsage.Page.{HidUsage}

abbrev pub num_lock : HidUsage
num_lock = 0x53

abbrev pub kp_slash : HidUsage
kp_slash = 0x54

abbrev pub kp_asterisk : HidUsage
kp_asterisk = 0x55

abbrev pub kp_minus : HidUsage
kp_minus = 0x56

abbrev pub kp_plus : HidUsage
kp_plus = 0x57

abbrev pub kp_enter : HidUsage
kp_enter = 0x58

abbrev pub kp_1 : HidUsage
kp_1 = 0x59

abbrev pub kp_2 : HidUsage
kp_2 = 0x5a

abbrev pub kp_3 : HidUsage
kp_3 = 0x5b

abbrev pub kp_4 : HidUsage
kp_4 = 0x5c

abbrev pub kp_5 : HidUsage
kp_5 = 0x5d

abbrev pub kp_6 : HidUsage
kp_6 = 0x5e

abbrev pub kp_7 : HidUsage
kp_7 = 0x5f

abbrev pub kp_8 : HidUsage
kp_8 = 0x60

abbrev pub kp_9 : HidUsage
kp_9 = 0x61

abbrev pub kp_0 : HidUsage
kp_0 = 0x62

abbrev pub kp_period : HidUsage
kp_period = 0x63

abbrev pub non_us_backslash : HidUsage
non_us_backslash = 0x64

abbrev pub application : HidUsage
application = 0x65

abbrev pub f13 : HidUsage
f13 = 0x68

abbrev pub f14 : HidUsage
f14 = 0x69

abbrev pub f15 : HidUsage
f15 = 0x6a

abbrev pub f16 : HidUsage
f16 = 0x6b

abbrev pub f17 : HidUsage
f17 = 0x6c

abbrev pub f18 : HidUsage
f18 = 0x6d

abbrev pub f19 : HidUsage
f19 = 0x6e

abbrev pub f20 : HidUsage
f20 = 0x6f

abbrev pub f21 : HidUsage
f21 = 0x70

abbrev pub f22 : HidUsage
f22 = 0x71

abbrev pub f23 : HidUsage
f23 = 0x72

abbrev pub f24 : HidUsage
f24 = 0x73

abbrev pub lctrl : HidUsage
lctrl = 0xe0

abbrev pub lshift : HidUsage
lshift = 0xe1

abbrev pub lalt : HidUsage
lalt = 0xe2

abbrev pub lgui : HidUsage
lgui = 0xe3

abbrev pub rctrl : HidUsage
rctrl = 0xe4

abbrev pub rshift : HidUsage
rshift = 0xe5

abbrev pub ralt : HidUsage
ralt = 0xe6

abbrev pub rgui : HidUsage
rgui = 0xe7

abbrev pub consumer_mute : HidUsage
consumer_mute = 0x0ce2

abbrev pub consumer_volume_up : HidUsage
consumer_volume_up = 0x0ce9

abbrev pub consumer_volume_down : HidUsage
consumer_volume_down = 0x0cea

abbrev pub consumer_play_pause : HidUsage
consumer_play_pause = 0x0ccd

abbrev pub consumer_next_track : HidUsage
consumer_next_track = 0x0cb5

abbrev pub consumer_prev_track : HidUsage
consumer_prev_track = 0x0cb6

abbrev pub consumer_stop : HidUsage
consumer_stop = 0x0cb7

abbrev pub consumer_brightness_up : HidUsage
consumer_brightness_up = 0x0c6f

abbrev pub consumer_brightness_down : HidUsage
consumer_brightness_down = 0x0c70

abbrev pub consumer_eject : HidUsage
consumer_eject = 0x0cb8
