-- ===== src/Pal/X11/Capture.antt =====
-- crates/pal-x11/src/capture.rs: the translation of XInput2 raw events. What is sent to the sink is a
-- list, oldest first; that nobody listens to the sink any more changes nothing. The clock is an
-- argument. The thread around the translation is in Worker.
pub mod Motion
pub mod Modifiers
pub mod Worker
pub mod Restart
use Prim.Native.Nat.{bit_and}
use borderless.Base.{
  ℕ, zero, suc, ◌+◌, ◌*◌, ◌%◌, ◌^◌, Bool, true, false, not, ◌&&◌, Option, none, some, List, [], ◌∷◌,
  ◌++◌, ◌==◌, if◌then◌else◌, get_elem?,
}
use borderless.Base.Int.{ℤ, pos, negsuc, ◌-ℤ◌}
use borderless.Base.Word.{as_i32, wrap_i32}
use borderless.Core.HidUsage
use borderless.Core.HidUsage.{HidUsage}
use borderless.Core.Input.{Button, InputEvent}
use borderless.Core.ModifierMask
use borderless.Core.ModifierMask.{ModifierMask}
use borderless.Pal.X11.{keysym_to_hid}

-- `xinput::Fp3232`: the fraction is in units of 2 ^ -32.
pub record Fp3232 : Type 0 where
  pub integral : ℤ
  pub frac : ℕ

-- The `Event`s of x11rb that are looked at.
pub data Event : Type 0 where
  raw_key_press : (detail : ℕ) → Event
  raw_key_release : (detail : ℕ) → Event
  raw_button_press : (detail : ℕ) → Event
  raw_button_release : (detail : ℕ) → Event
  raw_motion : (valuator_mask : List ℕ) → (axisvalues_raw : List Fp3232) → Event
  other : Event

-- The reply of `get_keyboard_mapping`, with the first keycode that it is for.
pub record Keyboard : Type 0 where
  pub keysyms : List ℕ
  pub keysyms_per_keycode : ℕ
  pub min_keycode : ℕ

unfoldable pub fp3232_to_i32 : Fp3232 → ℤ
fp3232_to_i32 v = v.integral

-- `word & (1 << bit) != 0`
unfoldable pub has_axis : ℕ → ℕ → Bool
has_axis word bit = not (bit_and word (2 ^ bit) == 0)

abbrev pub Axes : Type 0
Axes = List (ℕ × Fp3232)

-- `if let Some(v) = values.get(value_idx) { out.push((axis, *v)) }`
unfoldable pub push_axis : ℕ → Option Fp3232 → Axes → Axes
push_axis axis none out = out
push_axis axis (some v) out = out ++ ((axis, v) ∷ [])

-- One turn of the loop over the bits of a word, with `value_idx` and `out`.
unfoldable pub scan_bit : List Fp3232 → ℕ → ℕ → ℕ → ℕ × Axes → ℕ × Axes
unfolding has_axis push_axis
scan_bit values word word_idx bit (value_idx, out) =
    if has_axis word bit
    then (value_idx + 1, push_axis (word_idx * 32 + bit) (get_elem? values value_idx) out)
    else (value_idx, out)

-- The loop over the bits of a word: so many turns from a bit on.
unfoldable pub scan_word : List Fp3232 → ℕ → ℕ → ℕ → ℕ → ℕ × Axes → ℕ × Axes
unfolding scan_bit
scan_word values word word_idx zero bit s = s
scan_word values word word_idx (suc turns) bit s =
    scan_word values word word_idx turns (bit + 1) (scan_bit values word word_idx bit s)

unfoldable pub scan_words : List Fp3232 → List ℕ → ℕ → ℕ × Axes → ℕ × Axes
unfolding scan_word
scan_words values [] word_idx s = s
scan_words values (word ∷ words) word_idx s =
    scan_words values words (word_idx + 1) (scan_word values word word_idx 32 0 s)

unfoldable pub mask_iter : List ℕ → List Fp3232 → Axes
unfolding scan_words
mask_iter mask values = (scan_words values mask 0 (0, [])).1

-- The loop of `RawMotion` over the axes, with `dx` and `dy`.
unfoldable pub axis_delta : ℕ → Fp3232 → ℤ × ℤ → ℤ × ℤ
unfolding fp3232_to_i32
axis_delta axis v (dx, dy) =
    if axis == 0
    then (fp3232_to_i32 v, dy)
    else if axis == 1
    then (dx, fp3232_to_i32 v)
    else (dx, dy)

unfoldable pub deltas : Axes → ℤ × ℤ → ℤ × ℤ
unfolding axis_delta
deltas [] d = d
deltas ((axis, v) ∷ axes) d = deltas axes (axis_delta axis v d)

abbrev pub is_zero : ℤ → Bool
is_zero (pos n) = n == 0
is_zero (negsuc n) = false

unfoldable pub handle_motion : List ℕ → List Fp3232 → ℕ → List InputEvent
unfolding mask_iter deltas
handle_motion mask values now =
    let (dx, dy) = deltas (mask_iter mask values) (pos 0, pos 0) in
    if is_zero dx && is_zero dy then [] else InputEvent.mouse_move dx dy now ∷ []

unfoldable pub modifier_bit : HidUsage → Option ModifierMask
modifier_bit hid =
    if hid == HidUsage.lctrl
    then some ModifierMask.lctrl
    else if hid == HidUsage.lshift
    then some ModifierMask.lshift
    else if hid == HidUsage.lalt
    then some ModifierMask.lalt
    else if hid == HidUsage.lgui
    then some ModifierMask.lgui
    else if hid == HidUsage.rctrl
    then some ModifierMask.rctrl
    else if hid == HidUsage.rshift
    then some ModifierMask.rshift
    else if hid == HidUsage.ralt
    then some ModifierMask.ralt
    else if hid == HidUsage.rgui
    then some ModifierMask.rgui
    else none

unfoldable pub update_modifiers : HidUsage → Bool → ModifierMask → ModifierMask
unfolding modifier_bit ModifierMask.union ModifierMask.difference
update_modifiers hid pressed m = elim (modifier_bit hid) [
  | none ↦ m
  | some b ↦ if pressed then ModifierMask.union m b else ModifierMask.difference m b
]

-- `keysyms.get(base_idx)` for a keycode, if it is not below the first one.
unfoldable pub base_keysym : Keyboard → ℕ → Option ℕ
base_keysym kb keycode = elim (wrap_i32 (as_i32 keycode -ℤ pos kb.min_keycode)) [
  | negsuc _ ↦ none
  | pos kc ↦ get_elem? kb.keysyms (kc * kb.keysyms_per_keycode)
]

-- The usage of a keycode: the two early returns that drop a key give none.
unfoldable pub key_usage : Keyboard → ℕ → Option HidUsage
unfolding base_keysym keysym_to_hid
key_usage kb keycode = elim (base_keysym kb keycode) [ none ↦ none | some sym ↦ keysym_to_hid sym ]

unfoldable pub handle_key : Keyboard → ℕ → Bool → ModifierMask → ModifierMask × List InputEvent
unfolding key_usage update_modifiers
handle_key kb keycode pressed m = elim (key_usage kb keycode) [
  | none ↦ (m, [])
  | some hid ↦ let m' = update_modifiers hid pressed m in (m', InputEvent.key hid pressed m' ∷ [])
]

-- The last arm, which the wheel buttons also take when they are released.
abbrev pub other_button : ℕ → Bool → List InputEvent
other_button b pressed = InputEvent.mouse_button (Button.other (b % 2 ^ 8)) pressed ∷ []

unfoldable pub handle_button : ℕ → Bool → List InputEvent
handle_button detail pressed =
    if detail == 1
    then InputEvent.mouse_button Button.left pressed ∷ []
    else if detail == 2
    then InputEvent.mouse_button Button.middle pressed ∷ []
    else if detail == 3
    then InputEvent.mouse_button Button.right pressed ∷ []
    else if (detail == 4) && pressed
    then InputEvent.scroll (pos 0) (negsuc 0) ∷ []
    else if (detail == 5) && pressed
    then InputEvent.scroll (pos 0) (pos 1) ∷ []
    else if (detail == 6) && pressed
    then InputEvent.scroll (negsuc 0) (pos 0) ∷ []
    else if (detail == 7) && pressed
    then InputEvent.scroll (pos 1) (pos 0) ∷ []
    else if detail == 8
    then InputEvent.mouse_button Button.back pressed ∷ []
    else if detail == 9
    then InputEvent.mouse_button Button.forward pressed ∷ []
    else other_button detail pressed

unfoldable pub dispatch_event : Keyboard → ℕ → Event → ModifierMask → ModifierMask × List InputEvent
unfolding handle_key handle_button handle_motion
dispatch_event kb now (raw_key_press detail) m = handle_key kb detail true m
dispatch_event kb now (raw_key_release detail) m = handle_key kb detail false m
dispatch_event kb now (raw_button_press detail) m = (m, handle_button detail true)
dispatch_event kb now (raw_button_release detail) m = (m, handle_button detail false)
dispatch_event kb now (raw_motion mask values) m = (m, handle_motion mask values now)
dispatch_event kb now other m = (m, [])
