-- ===== src/InputRouter/Modifier.antt =====
-- `ModifierState` of crates/input-router/src/modifier.rs: the mask of the keys that are down.
pub mod Held
mod Tests
use borderless.Base.{ℕ, Bool, true, false, not, Option, none, some, ◌==◌, if◌then◌else◌}
use borderless.Core.HidUsage
use borderless.Core.HidUsage.{HidUsage}
use borderless.Core.ModifierMask
use borderless.Core.ModifierMask.{ModifierMask}

pub record ModifierState : Type 0 where
  pub mask : ModifierMask

unfoldable pub new : ModifierState
new = record { mask = ModifierMask.empty }

-- The `match` of `update`.
unfoldable pub modifier_bit : HidUsage → Option ModifierMask
modifier_bit code =
    if code == HidUsage.lctrl
    then some ModifierMask.lctrl
    else if code == HidUsage.lshift
    then some ModifierMask.lshift
    else if code == HidUsage.lalt
    then some ModifierMask.lalt
    else if code == HidUsage.lgui
    then some ModifierMask.lgui
    else if code == HidUsage.rctrl
    then some ModifierMask.rctrl
    else if code == HidUsage.rshift
    then some ModifierMask.rshift
    else if code == HidUsage.ralt
    then some ModifierMask.ralt
    else if code == HidUsage.rgui
    then some ModifierMask.rgui
    else none

-- Returns whether the mask changed.
unfoldable pub update : ModifierState → HidUsage → Bool → ModifierState × Bool
unfolding modifier_bit ModifierMask.union ModifierMask.difference
update s code pressed = elim (modifier_bit code) [
  | none ↦ (s, false)
  | some bit ↦
      let after : ModifierMask =
        if pressed then ModifierMask.union s.mask bit else ModifierMask.difference s.mask bit in
      (record { mask = after }, not (s.mask == after))
]

unfoldable pub clear : ModifierState → ModifierState
clear s = record { mask = ModifierMask.empty }
