-- ===== src/InputRouter/Modifier/Tests.antt =====
-- A few key events.
use borderless.Base.{◌≡◌, refl, true, false, [], ◌∷◌}
use borderless.Core.HidUsage
use borderless.InputRouter.Modifier.{ModifierState, new}
use borderless.InputRouter.Modifier.Held.{Events, update_all}

-- Left shift down, A down, left control down and up again.
abbrev events : Events
events =
    (HidUsage.lshift, true)
    ∷ (HidUsage.key_a, true)
    ∷ (HidUsage.lctrl, true)
    ∷ (HidUsage.lctrl, false)
    ∷ []

shift_only : (update_all new events).mask ≡ 2
unfolding update_all borderless.InputRouter.Modifier.update new
shift_only = refl
