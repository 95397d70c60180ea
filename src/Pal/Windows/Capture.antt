-- ===== src/Pal/Windows/Capture.antt =====
-- crates/pal-windows/src/capture.rs: the two hook procedures and the handle. The messages are those of
-- the Win32 headers. Every procedure ends by calling the next hook, so that nothing is suppressed. What
-- is sent to the sink is a list, oldest first, and the clock is an argument.
pub mod Moves
use borderless.Base.{
  ℕ, ◌/◌, ◌%◌, ◌^◌, Bool, true, false, Option, none, some, List, [], ◌∷◌, ◌==◌, if◌then◌else◌,
  Result, ok, err,
}
use borderless.Base.Int.{ℤ, pos, negsuc, ◌-ℤ◌, negate, quotient}
use borderless.Base.Word.{as_i16, wrap_i32}
use borderless.Core.HidUsage
use borderless.Core.HidUsage.{HidUsage}
use borderless.Core.Input.{Button, InputEvent}
use borderless.Core.ModifierMask
use borderless.Core.ModifierMask.{ModifierMask}
use borderless.Pal.Traits.{PalError, CaptureMode}
use borderless.Pal.Windows.{vk_to_hid}

pub data KeyMessage : Type 0 where
  keydown syskeydown keyup syskeyup unknown : KeyMessage

pub data MouseMessage : Type 0 where
  mousemove lbuttondown lbuttonup rbuttondown rbuttonup mbuttondown mbuttonup : MouseMessage
  xbuttondown xbuttonup mousewheel unknown : MouseMessage

-- What is read of `MSLLHOOKSTRUCT`.
pub record MouseHook : Type 0 where
  pub x : ℤ
  pub y : ℤ
  pub mouse_data : ℕ

abbrev pub xbutton1 : ℕ
xbutton1 = 1

-- The process-wide cells `MODIFIERS` and `LAST_MOUSE`, which `start` has set before any hook runs.
pub record Statics : Type 0 where
  pub modifiers : ModifierMask
  pub last_mouse : Option (ℤ × ℤ)

unfoldable pub modifier_bit : HidUsage → Option ModifierMask
modifier_bit hid =
    if hid == HidUsage.lctrl
    then some ModifierMask.lctrl
    else if hid == HidUsage.lshift
    then some ModifierMask.lshift
    else if hid == HidUsage.lalt
    then some ModifierMask.lalt
    else if hid == HidUsage.lgui
    then some ModifierMask.lgui
    else if hid == HidUsage.rctrl
    then some ModifierMask.rctrl
    else if hid == HidUsage.rshift
    then some ModifierMask.rshift
    else if hid == HidUsage.ralt
    then some ModifierMask.ralt
    else if hid == HidUsage.rgui
    then some ModifierMask.rgui
    else none

unfoldable pub update_modifiers : HidUsage → Bool → ModifierMask → ModifierMask
unfolding modifier_bit ModifierMask.union ModifierMask.difference
update_modifiers hid pressed m = elim (modifier_bit hid) [
  | none ↦ m
  | some b ↦ if pressed then ModifierMask.union m b else ModifierMask.difference m b
]

-- The part of the keyboard procedure for a message that is a press or a release.
unfoldable pub hook_key : ℕ → Bool → Statics → Statics × List InputEvent
unfolding vk_to_hid update_modifiers
hook_key vk_code pressed g = elim (vk_to_hid (vk_code % 2 ^ 16)) [
  | none ↦ (g, [])
  | some hid ↦
      let m = update_modifiers hid pressed g.modifiers in
      (record g { modifiers = m }, InputEvent.key hid pressed m ∷ [])
]

-- `low_level_keyboard_proc`, with the hook's code.
unfoldable pub low_level_keyboard_proc : ℤ → KeyMessage → ℕ → Statics → Statics × List InputEvent
unfolding hook_key
low_level_keyboard_proc (negsuc _) message vk_code g = (g, [])
low_level_keyboard_proc (pos _) KeyMessage.keydown vk_code g = hook_key vk_code true g
low_level_keyboard_proc (pos _) KeyMessage.syskeydown vk_code g = hook_key vk_code true g
low_level_keyboard_proc (pos _) KeyMessage.keyup vk_code g = hook_key vk_code false g
low_level_keyboard_proc (pos _) KeyMessage.syskeyup vk_code g = hook_key vk_code false g
low_level_keyboard_proc (pos _) KeyMessage.unknown vk_code g = (g, [])

abbrev pub button : Button → Bool → List InputEvent
button btn pressed = InputEvent.mouse_button btn pressed ∷ []

-- The move since the last position, if there is one.
unfoldable pub move_from : Option (ℤ × ℤ) → ℤ → ℤ → ℕ → List InputEvent
move_from none x y now = []
move_from (some (px, py)) x y now =
    InputEvent.mouse_move (wrap_i32 (x -ℤ px)) (wrap_i32 (y -ℤ py)) now ∷ []

unfoldable pub x_button : ℕ → Button
x_button mouse_data =
    if mouse_data / 2 ^ 16 % 2 ^ 16 == xbutton1 then Button.back else Button.forward

-- `(mouseData >> 16) as i16`, in whole notches and with the opposite sign.
unfoldable pub wheel_dy : ℕ → ℤ
wheel_dy mouse_data = negate (quotient (as_i16 (pos (mouse_data / 2 ^ 16))) 120)

unfoldable pub hook_mouse : MouseMessage → MouseHook → ℕ → Statics → Statics × List InputEvent
unfolding move_from x_button wheel_dy
hook_mouse MouseMessage.mousemove m now g =
    (record g { last_mouse = some (m.x, m.y) }, move_from g.last_mouse m.x m.y now)
hook_mouse MouseMessage.lbuttondown m now g = (g, button Button.left true)
hook_mouse MouseMessage.lbuttonup m now g = (g, button Button.left false)
hook_mouse MouseMessage.rbuttondown m now g = (g, button Button.right true)
hook_mouse MouseMessage.rbuttonup m now g = (g, button Button.right false)
hook_mouse MouseMessage.mbuttondown m now g = (g, button Button.middle true)
hook_mouse MouseMessage.mbuttonup m now g = (g, button Button.middle false)
hook_mouse MouseMessage.xbuttondown m now g = (g, button (x_button m.mouse_data) true)
hook_mouse MouseMessage.xbuttonup m now g = (g, button (x_button m.mouse_data) false)
hook_mouse MouseMessage.mousewheel m now g =
    (g, InputEvent.scroll (pos 0) (wheel_dy m.mouse_data) ∷ [])
hook_mouse MouseMessage.unknown m now g = (g, [])

-- `low_level_mouse_proc`, with the hook's code.
unfoldable pub low_level_mouse_proc :
    ℤ → MouseMessage → MouseHook → ℕ → Statics → Statics × List InputEvent
unfolding hook_mouse
low_level_mouse_proc (negsuc _) message m now g = (g, [])
low_level_mouse_proc (pos _) message m now g = hook_mouse message m now g

-- The handle, with the process-wide `SINK`, which the first start sets for good. A sink is named by a
-- number.
pub record WindowsCapture : Type 0 where
  pub mode : CaptureMode
  pub stop : Bool
  pub thread : Bool
  pub sink : Option ℕ

unfoldable pub new : WindowsCapture
new = record { mode = CaptureMode.off; stop = false; thread = false; sink = none }

-- `SINK.set(sink)`
abbrev pub set_once : Option ℕ → ℕ → Option ℕ
set_once none sink = some sink
set_once (some old) sink = some old

unfoldable pub start : Bool → ℕ → WindowsCapture → WindowsCapture × Result PalError (Unit {0})
start can_spawn sink c =
    if c.thread
    then (c, ok tt)
    else (let c : WindowsCapture = record c { stop = false; sink = set_once c.sink sink } in
        if can_spawn
        then (record c { thread = true }, ok tt)
        else (c, err (PalError.backend "spawn capture thread")))

unfoldable pub stop : WindowsCapture → WindowsCapture
stop c = record c { stop = true; thread = false }

unfoldable pub set_mode : CaptureMode → WindowsCapture → WindowsCapture
set_mode mode c = record c { mode = mode }
