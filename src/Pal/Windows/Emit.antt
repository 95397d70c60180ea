-- ===== src/Pal/Windows/Emit.antt =====
-- crates/pal-windows/src/emit.rs: the inputs that the emitter injects. `SendInput` is a parameter, which
-- says how many inputs it took. A flag is named as in the Win32 headers; several flags are a list.
use borderless.Base.{
  ℕ, ◌^◌, Bool, true, false, none, some, List, [], ◌∷◌, ◌++◌, ◌==◌, if◌then◌else◌, Result, ok, err,
}
use borderless.Base.Int.{ℤ, pos, negsuc, negate, scale}
use borderless.Base.Word.{pattern_of, wrap_i32}
use borderless.Core.HidUsage.{HidUsage}
use borderless.Core.Input.{Button, InputEvent}
use borderless.Pal.Traits.{PalError}
use borderless.Pal.Windows.{hid_to_win}

pub data MouseFlag : Type 0 where
  move absolute virtualdesk leftdown leftup rightdown rightup middledown middleup : MouseFlag
  xdown xup wheel hwheel : MouseFlag

pub data KeyFlag : Type 0 where
  scancode keyup extendedkey : KeyFlag

-- `INPUT`: the fields that are not always zero.
pub data Input : Type 0 where
  mouse : (dx dy : ℤ) → (mouse_data : ℕ) → (flags : List MouseFlag) → Input
  keyboard : (vk scan : ℕ) → (flags : List KeyFlag) → Input

abbrev pub xbutton1 : ℤ
xbutton1 = pos 1

abbrev pub xbutton2 : ℤ
xbutton2 = pos 2

-- `data as u32`
unfoldable pub mouse_input : ℤ → ℤ → List MouseFlag → ℤ → Input
mouse_input dx dy flags n = mouse dx dy (pattern_of (2 ^ 32) n) flags

unfoldable pub key_input : ℕ → ℕ → List KeyFlag → Input
key_input vk scan flags = keyboard vk scan flags

unfoldable pub button_flags : Button → Bool → List MouseFlag × ℤ
button_flags Button.left true = (leftdown ∷ [], pos 0)
button_flags Button.left false = (leftup ∷ [], pos 0)
button_flags Button.right true = (rightdown ∷ [], pos 0)
button_flags Button.right false = (rightup ∷ [], pos 0)
button_flags Button.middle true = (middledown ∷ [], pos 0)
button_flags Button.middle false = (middleup ∷ [], pos 0)
button_flags Button.back true = (xdown ∷ [], xbutton1)
button_flags Button.back false = (xup ∷ [], xbutton1)
button_flags Button.forward true = (xdown ∷ [], xbutton2)
button_flags Button.forward false = (xup ∷ [], xbutton2)
button_flags (Button.other _) _ = (move ∷ [], pos 0)

unfoldable pub key_flags : Bool → Bool → List KeyFlag
key_flags pressed ext =
    scancode ∷ ((if pressed then [] else keyup ∷ []) ++ (if ext then extendedkey ∷ [] else []))

-- `(-dy) * 120` and `dx * 120` on `i32`
unfoldable pub wheel_data : ℤ → ℤ
wheel_data dy = wrap_i32 (scale 120 (wrap_i32 (negate dy)))

unfoldable pub hwheel_data : ℤ → ℤ
hwheel_data dx = wrap_i32 (scale 120 dx)

abbrev pub is_zero : ℤ → Bool
is_zero (pos n) = n == 0
is_zero (negsuc n) = false

pub record System : Type 1 where
  pub State : Type 0
  pub send_input : Input → State → ℕ × State

module _ (system : System) where
  open system use {State, send_input}

  unfoldable pub send : Input → State → State × Result PalError (Unit {0})
  send input s =
      let (n, s) = send_input input s in
      if n == 0 then (s, err (PalError.backend "SendInput failed")) else (s, ok tt)

  -- `send(...)?` before more of a function.
  unfoldable pub send_then :
      Input
      → (State → State × Result PalError (Unit {0}))
      → State
      → State × Result PalError (Unit {0})
  unfolding send
  send_then input rest s =
      let (s', r) = send input s in elim r [ ok _ ↦ rest s' | err e ↦ (s', err e) ]

  unfoldable pub scroll_x : ℤ → State → State × Result PalError (Unit {0})
  unfolding send mouse_input hwheel_data
  scroll_x dx s =
      if is_zero dx
      then (s, ok tt)
      else send (mouse_input (pos 0) (pos 0) (hwheel ∷ []) (hwheel_data dx)) s

  unfoldable pub scroll : ℤ → ℤ → State → State × Result PalError (Unit {0})
  unfolding send_then scroll_x mouse_input wheel_data
  scroll dx dy s =
      if is_zero dy
      then scroll_x dx s
      else send_then (mouse_input (pos 0) (pos 0) (wheel ∷ []) (wheel_data dy)) (scroll_x dx) s

  unfoldable pub emit_key : HidUsage → Bool → State → State × Result PalError (Unit {0})
  unfolding hid_to_win key_input key_flags send
  emit_key code pressed s = elim (hid_to_win code) [
    | none ↦ (s, ok tt)
    | some (vk, scan, ext) ↦ send (key_input vk scan (key_flags pressed ext)) s
  ]

  unfoldable pub emit : InputEvent → State → State × Result PalError (Unit {0})
  unfolding send scroll emit_key mouse_input button_flags
  emit (InputEvent.mouse_move dx dy _) s = send (mouse_input dx dy (move ∷ []) (pos 0)) s
  emit (InputEvent.mouse_abs x y _) s =
      send (mouse_input x y (move ∷ absolute ∷ virtualdesk ∷ []) (pos 0)) s
  emit (InputEvent.mouse_button btn pressed) s =
      let (flags, n) = button_flags btn pressed in send (mouse_input (pos 0) (pos 0) flags n) s
  emit (InputEvent.scroll dx dy) s = scroll dx dy s
  emit (InputEvent.key code pressed _) s = emit_key code pressed s
  emit (InputEvent.enter _ _) s = (s, ok tt)
  emit (InputEvent.leave _) s = (s, ok tt)
