-- ===== src/Pal/Windows/Tests.antt =====
-- Two motions and a click.
use borderless.Base.{◌≡◌, refl, some, [], ◌∷◌, arith}
use borderless.Base.Int.{ℤ, pos, negsuc}
use borderless.Pal.Windows.Capture.{MouseMessage, MouseHook, Statics}
use borderless.Pal.Windows.Capture.Moves.{Messages, hook_run, moved, hook_run-moved}

abbrev at : ℤ → ℤ → MouseHook
at x y = record { x = x; y = y; mouse_data = 0 }

abbrev messages : Messages
messages =
    (1, MouseMessage.mousemove, at (pos 10) (pos 5))
    ∷ (2, MouseMessage.lbuttondown, at (pos 10) (pos 5))
    ∷ (3, MouseMessage.mousemove, at (negsuc 3) (pos 7))
    ∷ []

abbrev statics : Statics
statics = record { modifiers = 0; last_mouse = some (pos 8, pos 8) }

hook_run-moved_example :
    (hook_run messages statics).0.last_mouse
    ≡ some (moved (pos 8, pos 8) (hook_run messages statics).1)
hook_run-moved_example =
    hook_run-moved messages statics (pos 8, pos 8) (omega arith) (omega arith) refl
