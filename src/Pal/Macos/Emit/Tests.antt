-- ===== src/Pal/Macos/Emit/Tests.antt =====
-- Whole coordinates in place of floating-point ones.
use borderless.Base.{◌≡◌, refl, true, List, [], ◌∷◌, ◌++◌}
use borderless.Base.Int.{ℤ, pos, negsuc, ◌+ℤ◌}
use borderless.Core.Input.{Button, InputEvent}
use borderless.Pal.Macos.Emit.{Float, MacosEmit}
use borderless.Pal.Macos.Emit.Position.{emit_all, end_pos, places, all_places, emit_all-places}
use borderless.Pal.Macos.Emit.Wheel.{Turns, up, right, raw_events, posts_of, wheel-releases_middle}
use borderless.Pal.X11.Capture.{Keyboard}
use borderless.Pal.X11.Capture.Modifiers.{capture_run}

abbrev whole : Float
whole = record { F = ℤ; add = ◌+ℤ◌; of_i32 = λ z. z }

abbrev mac : MacosEmit whole
mac = record { last_pos = (pos 0, pos 0); posted = []; can_make = λ e. true }

abbrev drag : List InputEvent
drag =
    InputEvent.mouse_abs (pos 100) (pos 50) 0
    ∷ InputEvent.mouse_button Button.left true
    ∷ InputEvent.mouse_move (negsuc 4) (pos 2) 0
    ∷ []

emit_all-places_example :
    ((emit_all whole drag mac).last_pos ≡ end_pos whole drag mac.last_pos)
    × (places whole (emit_all whole drag mac).posted
        ≡ places whole mac.posted ++ all_places whole drag mac.last_pos)
emit_all-places_example = emit_all-places whole drag mac (λ e. refl)

abbrev keyboard : Keyboard
keyboard = record { keysyms = []; keysyms_per_keycode = 1; min_keycode = 8 }

abbrev turns : Turns
turns = (0, 1, up) ∷ (2, 3, right) ∷ []

wheel-releases_middle_example :
    let (mask', sent) = capture_run keyboard (raw_events turns) 2 in
    (mask' ≡ 2)
    × (emit_all whole sent mac
        ≡ record mac { posted = mac.posted ++ posts_of whole turns mac.last_pos })
wheel-releases_middle_example = wheel-releases_middle whole keyboard turns 2 mac (λ e. refl)
