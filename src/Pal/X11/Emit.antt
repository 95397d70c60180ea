-- ===== src/Pal/X11/Emit.antt =====
-- crates/pal-x11/src/emit.rs: the requests that the emitter makes of the X server. The connection is a
-- parameter, which may refuse each request. The mutex round the table is not modelled: nothing else
-- locks it.
pub mod Table
pub mod Plan
use borderless.Base.{
  ℕ, zero, suc, ◌+◌, ◌-◌, ◌*◌, ◌%◌, ◌^◌, Bool, true, false, Option, none, some, List, [], ◌∷◌, ◌==◌,
  if◌then◌else◌, get_elem?, ℕ_discrete, Result, ok, err, ◌>>=◌, or_fail,
}
use borderless.Base.Dict.{Dict, lookup, insert}
use borderless.Base.Int.{ℤ, pos, negsuc, pos_part, neg_part}
use borderless.Base.Word.{as_i16}
use borderless.Core.HidUsage.{HidUsage}
use borderless.Core.Input.{Button, InputEvent}
use borderless.Pal.Traits.{PalError}
use borderless.Pal.X11.{hid_to_keysym}

pub data EventType : Type 0 where
  key_press key_release button_press button_release motion_notify : EventType

-- The arguments of `xtest_fake_input` that differ.
pub record FakeInput : Type 0 where
  pub type_ : EventType
  pub detail : ℕ
  pub x : ℤ
  pub y : ℤ

-- The connection of x11rb: a request or a flush may fail.
pub record Server : Type 1 where
  pub Conn : Type 0
  pub xtest_fake_input : FakeInput → Conn → Option Conn
  pub flush : Conn → Option Conn

abbrev pub KeysymTable : Type 0
KeysymTable = Dict ℕ ℕ

unfoldable pub button_to_code : Button → ℕ
button_to_code Button.left = 1
button_to_code Button.middle = 2
button_to_code Button.right = 3
button_to_code Button.back = 8
button_to_code Button.forward = 9
button_to_code (Button.other n) = n

-- `hid_to_keycode`
unfoldable pub hid_to_keycode : KeysymTable → HidUsage → Option ℕ
hid_to_keycode table hid = elim (hid_to_keysym hid) [
  | none ↦ none
  | some sym ↦ lookup ℕ_discrete sym table
]

-- A request for a key or a button.
abbrev pub press : EventType → ℕ → FakeInput
press type_ detail = record { type_ = type_; detail = detail; x = pos 0; y = pos 0 }

abbrev pub button_type : Bool → EventType
button_type pressed = if pressed then button_press else button_release

abbrev pub key_type : Bool → EventType
key_type pressed = if pressed then key_press else key_release

-- `unsigned_abs`
abbrev pub unsigned_abs : ℤ → ℕ
unsigned_abs z = pos_part z + neg_part z

-- `if d < 0 { negative } else { positive }`
abbrev pub by_sign : ℤ → ℕ → ℕ → ℕ
by_sign (pos _) negative positive = positive
by_sign (negsuc _) negative positive = negative

module _ (server : Server) where
  open server use {Conn, xtest_fake_input, flush}

  abbrev pub fake_input : FakeInput → PalError → Conn → Result PalError Conn
  fake_input request error conn = or_fail (xtest_fake_input request conn) error

  abbrev pub flush_or_fail : Conn → Result PalError Conn
  flush_or_fail conn = or_fail (flush conn) (PalError.backend "flush")

  -- A request and the flush after it.
  unfoldable pub send : FakeInput → PalError → Conn → Result PalError Conn
  send request error conn = do conn ← fake_input request error conn; flush_or_fail conn

  unfoldable pub click : ℕ → Conn → Result PalError Conn
  click code conn = do
    conn ← fake_input (press button_press code) (PalError.backend "xtest scroll press") conn
    conn ← fake_input (press button_release code) (PalError.backend "xtest scroll release") conn
    flush_or_fail conn

  -- `for _ in 0..times { self.click(code)?; }`
  unfoldable pub clicks : ℕ → ℕ → Conn → Result PalError Conn
  unfolding click
  clicks code zero conn = ok conn
  clicks code (suc times) conn = do conn ← click code conn; clicks code times conn

  -- No turn of the loop is made for a zero, which is what the test before it says.
  unfoldable pub scroll : ℤ → ℤ → Conn → Result PalError Conn
  unfolding clicks
  scroll dx dy conn = do
    conn ← clicks (by_sign dy 4 5) (unsigned_abs dy) conn
    clicks (by_sign dx 6 7) (unsigned_abs dx) conn

  unfoldable pub emit_key : KeysymTable → HidUsage → Bool → Conn → Result PalError Conn
  unfolding hid_to_keycode send
  emit_key table code pressed conn = elim (hid_to_keycode table code) [
    | none ↦ ok conn
    | some keycode ↦ send (press (key_type pressed) keycode) (PalError.backend "xtest key") conn
  ]

  unfoldable pub emit : KeysymTable → InputEvent → Conn → Result PalError Conn
  unfolding send scroll emit_key button_to_code
  emit table (InputEvent.mouse_move dx dy _) conn =
      send (record { type_ = motion_notify; detail = 1; x = as_i16 dx; y = as_i16 dy })
        (PalError.backend "xtest motion") conn
  emit table (InputEvent.mouse_abs x y _) conn =
      send (record { type_ = motion_notify; detail = 0; x = as_i16 x; y = as_i16 y })
        (PalError.backend "xtest abs motion") conn
  emit table (InputEvent.mouse_button btn pressed) conn =
      send (press (button_type pressed) (button_to_code btn)) (PalError.backend "xtest button") conn
  emit table (InputEvent.scroll dx dy) conn = scroll dx dy conn
  emit table (InputEvent.key code pressed _) conn = emit_key table code pressed conn
  emit table (InputEvent.enter _ _) conn = ok conn
  emit table (InputEvent.leave _) conn = ok conn

-- `out.entry(sym).or_insert(keycode)`
unfoldable pub or_insert : ℕ → ℕ → KeysymTable → KeysymTable
or_insert sym keycode out = elim (lookup ℕ_discrete sym out) [
  | some _ ↦ out
  | none ↦ insert ℕ_discrete sym keycode out
]

-- One turn over a column of a keycode.
unfoldable pub add_column : List ℕ → ℕ → ℕ → KeysymTable → KeysymTable
unfolding or_insert
add_column keysyms index keycode out = elim (get_elem? keysyms index) [
  | none ↦ out
  | some sym ↦ if sym == 0 then out else or_insert sym keycode out
]

-- The loop over so many columns, from an index on.
unfoldable pub add_columns : List ℕ → ℕ → ℕ → ℕ → KeysymTable → KeysymTable
unfolding add_column
add_columns keysyms zero index keycode out = out
add_columns keysyms (suc columns) index keycode out =
    add_columns keysyms columns (index + 1) keycode (add_column keysyms index keycode out)

-- The loop over so many keycodes, from `min_kc + kc` on. The sum is that of two `u8`.
unfoldable pub add_keycodes : List ℕ → ℕ → ℕ → ℕ → ℕ → KeysymTable → KeysymTable
unfolding add_columns
add_keycodes keysyms kpkc min_kc zero kc out = out
add_keycodes keysyms kpkc min_kc (suc count) kc out =
    add_keycodes keysyms kpkc min_kc count (kc + 1)
      (add_columns keysyms kpkc (kc * kpkc) ((min_kc + kc) % 2 ^ 8) out)

-- `max_kc - min_kc + 1` on `u8`
unfoldable pub keycode_count : ℕ → ℕ → ℕ
keycode_count min_kc max_kc = (max_kc + 2 ^ 8 - min_kc + 1) % 2 ^ 8

-- `build_keysym_table`, with the reply to `get_keyboard_mapping`.
unfoldable pub build_keysym_table : List ℕ → ℕ → ℕ → ℕ → KeysymTable
unfolding keycode_count add_keycodes
build_keysym_table keysyms kpkc min_kc max_kc =
    add_keycodes keysyms kpkc min_kc (keycode_count min_kc max_kc) 0 []
