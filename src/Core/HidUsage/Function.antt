-- ===== src/Core/HidUsage/Function.antt =====
-- Constants of `HidUsage` in crates/core/src/hid.rs: locks, the function row, the editing and arrow clusters. They keep the source's order and
-- spelling, in lower case.
use borderless.Core.HidUsage.Page.{HidUsage}

abbrev pub caps_lock : HidUsage
caps_lock = 0x39

abbrev pub f1 : HidUsage
f1 = 0x3a

abbrev pub f2 : HidUsage
f2 = 0x3b

abbrev pub f3 : HidUsage
f3 = 0x3c

abbrev pub f4 : HidUsage
f4 = 0x3d

abbrev pub f5 : HidUsage
f5 = 0x3e

abbrev pub f6 : HidUsage
f6 = 0x3f

abbrev pub f7 : HidUsage
f7 = 0x40

abbrev pub f8 : HidUsage
f8 = 0x41

abbrev pub f9 : HidUsage
f9 = 0x42

abbrev pub f10 : HidUsage
f10 = 0x43

abbrev pub f11 : HidUsage
f11 = 0x44

abbrev pub f12 : HidUsage
f12 = 0x45

abbrev pub print_screen : HidUsage
print_screen = 0x46

abbrev pub scroll_lock : HidUsage
scroll_lock = 0x47

abbrev pub pause : HidUsage
pause = 0x48

abbrev pub insert : HidUsage
insert = 0x49

abbrev pub home : HidUsage
home = 0x4a

abbrev pub page_up : HidUsage
page_up = 0x4b

abbrev pub delete : HidUsage
delete = 0x4c

abbrev pub end : HidUsage
end = 0x4d

abbrev pub page_down : HidUsage
page_down = 0x4e

abbrev pub right : HidUsage
right = 0x4f

abbrev pub left : HidUsage
left = 0x50

abbrev pub down : HidUsage
down = 0x51

abbrev pub up : HidUsage
up = 0x52
