-- ===== src/Core/HidUsage/Letters.antt =====
-- Constants of `HidUsage` in crates/core/src/hid.rs: letters, digits, whitespace and punctuation. They keep the source's order and
-- spelling, in lower case.
use borderless.Core.HidUsage.Page.{HidUsage}

abbrev pub key_a : HidUsage
key_a = 0x04

abbrev pub key_b : HidUsage
key_b = 0x05

abbrev pub key_c : HidUsage
key_c = 0x06

abbrev pub key_d : HidUsage
key_d = 0x07

abbrev pub key_e : HidUsage
key_e = 0x08

abbrev pub key_f : HidUsage
key_f = 0x09

abbrev pub key_g : HidUsage
key_g = 0x0a

abbrev pub key_h : HidUsage
key_h = 0x0b

abbrev pub key_i : HidUsage
key_i = 0x0c

abbrev pub key_j : HidUsage
key_j = 0x0d

abbrev pub key_k : HidUsage
key_k = 0x0e

abbrev pub key_l : HidUsage
key_l = 0x0f

abbrev pub key_m : HidUsage
key_m = 0x10

abbrev pub key_n : HidUsage
key_n = 0x11

abbrev pub key_o : HidUsage
key_o = 0x12

abbrev pub key_p : HidUsage
key_p = 0x13

abbrev pub key_q : HidUsage
key_q = 0x14

abbrev pub key_r : HidUsage
key_r = 0x15

abbrev pub key_s : HidUsage
key_s = 0x16

abbrev pub key_t : HidUsage
key_t = 0x17

abbrev pub key_u : HidUsage
key_u = 0x18

abbrev pub key_v : HidUsage
key_v = 0x19

abbrev pub key_w : HidUsage
key_w = 0x1a

abbrev pub key_x : HidUsage
key_x = 0x1b

abbrev pub key_y : HidUsage
key_y = 0x1c

abbrev pub key_z : HidUsage
key_z = 0x1d

abbrev pub key_1 : HidUsage
key_1 = 0x1e

abbrev pub key_2 : HidUsage
key_2 = 0x1f

abbrev pub key_3 : HidUsage
key_3 = 0x20

abbrev pub key_4 : HidUsage
key_4 = 0x21

abbrev pub key_5 : HidUsage
key_5 = 0x22

abbrev pub key_6 : HidUsage
key_6 = 0x23

abbrev pub key_7 : HidUsage
key_7 = 0x24

abbrev pub key_8 : HidUsage
key_8 = 0x25

abbrev pub key_9 : HidUsage
key_9 = 0x26

abbrev pub key_0 : HidUsage
key_0 = 0x27

abbrev pub enter : HidUsage
enter = 0x28

abbrev pub escape : HidUsage
escape = 0x29

abbrev pub backspace : HidUsage
backspace = 0x2a

abbrev pub tab : HidUsage
tab = 0x2b

abbrev pub space : HidUsage
space = 0x2c

abbrev pub minus : HidUsage
minus = 0x2d

abbrev pub equal : HidUsage
equal = 0x2e

abbrev pub left_bracket : HidUsage
left_bracket = 0x2f

abbrev pub right_bracket : HidUsage
right_bracket = 0x30

abbrev pub backslash : HidUsage
backslash = 0x31

abbrev pub non_us_hash : HidUsage
non_us_hash = 0x32

abbrev pub semicolon : HidUsage
semicolon = 0x33

abbrev pub apostrophe : HidUsage
apostrophe = 0x34

abbrev pub grave : HidUsage
grave = 0x35

abbrev pub comma : HidUsage
comma = 0x36

abbrev pub period : HidUsage
period = 0x37

abbrev pub slash : HidUsage
slash = 0x38
