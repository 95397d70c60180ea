-- ===== src/Pal/Macos/Emit.antt =====
-- crates/pal-macos/src/emit.rs: the events that the emitter posts. The floating-point coordinates and
-- the making of an event, which may fail, are parameters; what is posted is kept in order.
pub mod Position
pub mod Wheel
mod Tests
use Prim.Native.String.{String}
use borderless.Base.{ℕ, Bool, true, false, Option, none, some, List, [], ◌∷◌, ◌++◌, Result, ok, err}
use borderless.Base.Int.{ℤ, negate}
use borderless.Base.Word.{wrap_i32}
use borderless.Core.HidUsage.{HidUsage}
use borderless.Core.Input.{Button, InputEvent}
use borderless.Pal.Traits.{PalError}
use borderless.Pal.Macos.{hid_to_mac}

pub data EventType : Type 0 where
  mouse_moved left_mouse_down left_mouse_up right_mouse_down right_mouse_up : EventType
  other_mouse_down other_mouse_up : EventType

pub data MouseButton : Type 0 where
  left right center : MouseButton

-- `f64`: the sum, and the value of an `i32`.
pub record Float : Type 1 where
  pub F : Type 0
  pub add : F → F → F
  pub of_i32 : ℤ → F

unfoldable pub mouse_event_type : Button → Bool → EventType × MouseButton
mouse_event_type Button.left true = (left_mouse_down, left)
mouse_event_type Button.left false = (left_mouse_up, left)
mouse_event_type Button.right true = (right_mouse_down, right)
mouse_event_type Button.right false = (right_mouse_up, right)
mouse_event_type Button.middle true = (other_mouse_down, center)
mouse_event_type Button.middle false = (other_mouse_up, center)
mouse_event_type _ true = (other_mouse_down, center)
mouse_event_type _ false = (other_mouse_up, center)

module _ (float : Float) where
  open float use {F, add, of_i32}

  pub data Event : Type 0 where
    mouse : EventType → (x y : F) → MouseButton → Event
    scroll : (wheel1 wheel2 : ℤ) → Event
    keyboard : (keycode : ℕ) → (down : Bool) → Event

  -- The emitter's `last_pos`, what has been posted, and the events that the system can make.
  pub record MacosEmit : Type 0 where
    pub last_pos : F × F
    pub posted : List Event
    pub can_make : Event → Bool

  abbrev pub Outcome : Type 0
  Outcome = MacosEmit × Result PalError (Unit {0})

  -- Makes an event and posts it.
  unfoldable pub post : Event → String → MacosEmit → Outcome
  post ev text m = elim (m.can_make ev) [
    | true ↦ (record m { posted = m.posted ++ (ev ∷ []) }, ok tt)
    | false ↦ (m, err (PalError.backend text))
  ]

  -- The position that is kept is changed before the event is made.
  unfoldable pub move_to : F × F → String → MacosEmit → Outcome
  unfolding post
  move_to (x, y) text m = post (mouse mouse_moved x y left) text (record m { last_pos = (x, y) })

  unfoldable pub emit_key : HidUsage → Bool → MacosEmit → Outcome
  unfolding post
  emit_key code pressed m = elim (hid_to_mac code) [
    | none ↦ (m, ok tt)
    | some kc ↦ post (keyboard kc pressed) "keyboard event" m
  ]

  unfoldable pub emit_button : EventType × MouseButton → MacosEmit → Outcome
  unfolding post
  emit_button (et, mb) m = post (mouse et m.last_pos.0 m.last_pos.1 mb) "mouse button event" m

  unfoldable pub emit : InputEvent → MacosEmit → Outcome
  unfolding move_to emit_key emit_button mouse_event_type post
  emit (InputEvent.mouse_move dx dy _) m =
      move_to (add m.last_pos.0 (of_i32 dx), add m.last_pos.1 (of_i32 dy)) "mouse moved event" m
  emit (InputEvent.mouse_abs x y _) m = move_to (of_i32 x, of_i32 y) "mouse abs event" m
  emit (InputEvent.mouse_button btn pressed) m = emit_button (mouse_event_type btn pressed) m
  emit (InputEvent.scroll dx dy) m =
      post (scroll (wrap_i32 (negate dy)) (wrap_i32 (negate dx))) "scroll event" m
  emit (InputEvent.key code pressed _) m = emit_key code pressed m
  emit (InputEvent.enter _ _) m = (m, ok tt)
  emit (InputEvent.leave _) m = (m, ok tt)
