-- ===== src/Core/Input.antt =====
-- crates/core/src/input.rs: the input events that flow from the active node to the others. An
-- `i32` is the integer that it stands for.
use borderless.Base.{ℕ, Bool}
use borderless.Base.Int.{ℤ}
use borderless.Core.HidUsage.{HidUsage}
use borderless.Core.ModifierMask.{ModifierMask}
use borderless.Core.Node.{NodeId}

pub data Button : Type 0 where
  left : Button
  right : Button
  middle : Button
  back : Button
  forward : Button
  other : ℕ → Button

pub data InputEvent : Type 0 where
  mouse_move : (dx dy : ℤ) → (ts : ℕ) → InputEvent
  mouse_abs : (x y : ℤ) → (screen_id : ℕ) → InputEvent
  mouse_button : (btn : Button) → (pressed : Bool) → InputEvent
  scroll : (dx dy : ℤ) → InputEvent
  key : (code : HidUsage) → (pressed : Bool) → (modifiers : ModifierMask) → InputEvent
  enter : (from : NodeId) → (modifiers : ModifierMask) → InputEvent
  leave : (to : NodeId) → InputEvent
