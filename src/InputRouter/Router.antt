-- ===== src/InputRouter/Router.antt =====
-- `Router` of crates/input-router/src/router.rs. An `i32` is an integer, its `+` wraps. `none` is a
-- panic: `clamp` asserts that its bounds are in order.
pub mod Bounds
pub mod Trace
pub mod Focus
mod Tests
use borderless.Base.{
  ℕ, suc, ◌+◌, ◌-◌, ◌/◌, ◌^◌, ite, Option, none, some, List, [], ◌∷◌, ◌++◌, Bool, true, false,
  if◌then◌else◌,
}
use borderless.Base.Int.{ℤ, pos, negsuc, ◌+ℤ◌, ◌-ℤ◌, ltb_ℤ, leb_ℤ, sub_ℕ}
use borderless.Base.Word.{as_i32, wrap_i32}
use borderless.Core.Input.{InputEvent}
use borderless.Core.Node.{NodeId, NodeId-discrete}
use borderless.InputRouter.Layout.{Edge, Layout, neighbor}
use borderless.InputRouter.Modifier
use borderless.InputRouter.Modifier.{ModifierState, update}

pub data Routed : Type 0 where
  local : InputEvent → Routed
  remote : (target : NodeId) → (event : InputEvent) → Routed

pub record Router : Type 0 where
  pub self_id : NodeId
  pub active : NodeId
  pub modifiers : ModifierState
  pub x : ℤ
  pub y : ℤ
  pub width : ℤ
  pub height : ℤ

-- `z / 2` rounds toward zero.
abbrev pub half : ℤ → ℤ
half (pos n) = pos (n / 2)
half (negsuc n) = sub_ℕ 0 (suc n / 2)

unfoldable pub new : NodeId → ℕ → ℕ → Router
unfolding as_i32 Modifier.new
new self_id width height = record {
  self_id = self_id;
  active = self_id;
  modifiers = Modifier.new;
  x = half (as_i32 width);
  y = half (as_i32 height);
  width = as_i32 width;
  height = as_i32 height;
}

-- `z.saturating_sub(1)`
abbrev pub saturating_pred : ℤ → ℤ
saturating_pred z = if leb_ℤ z (negsuc (2 ^ 31 - 1)) then negsuc (2 ^ 31 - 1) else z -ℤ pos 1

-- `z.clamp(0, hi)`
abbrev pub clamp_from_zero : ℤ → ℤ → Option ℤ
clamp_from_zero hi z =
    if ltb_ℤ hi (pos 0)
    then none
    else some (if ltb_ℤ z (pos 0) then pos 0 else if ltb_ℤ hi z then hi else z)

unfoldable pub crossed_edge : Router → Option Edge
crossed_edge r =
    if ltb_ℤ r.x (pos 0)
    then some Edge.left
    else if leb_ℤ r.width r.x
    then some Edge.right
    else if ltb_ℤ r.y (pos 0)
    then some Edge.top
    else if leb_ℤ r.height r.y
    then some Edge.bottom
    else none

-- `crossed_edge.and_then(|e| layout.neighbor(self.self_id, e).map(..))`
unfoldable pub next_node : Layout → Router → Option NodeId
unfolding crossed_edge
next_node layout r = elim (crossed_edge r) [ none ↦ none | some e ↦ neighbor layout r.self_id e ]

-- The arm with no neighbour: clamp inside, deliver locally.
unfoldable pub stay : Router → InputEvent → Option (Router × List Routed)
unfolding ◌-ℤ◌
stay r event = elim (clamp_from_zero (saturating_pred r.width) r.x) [
  | none ↦ none
  | some x ↦ elim (clamp_from_zero (saturating_pred r.height) r.y) [
    | none ↦ none
    | some y ↦ some (record r { x = x; y = y }, local event ∷ [])
  ]
]

-- The arm with a neighbour.
unfoldable pub cross : Router → NodeId → Router × List Routed
cross r next = (
  record r { active = next; x = half r.width; y = half r.height },
  remote r.self_id (InputEvent.leave next)
      ∷ remote next (InputEvent.enter r.self_id r.modifiers.mask)
      ∷ [],
)

unfoldable pub on_mouse_move : Router → ℤ → ℤ → ℕ → Layout → Option (Router × List Routed)
unfolding ◌+ℤ◌ wrap_i32 next_node stay cross
on_mouse_move r dx dy ts layout =
    let event : InputEvent = InputEvent.mouse_move dx dy ts in
    let moved : Router = record r { x = wrap_i32 (r.x +ℤ dx); y = wrap_i32 (r.y +ℤ dy) } in
    ite (NodeId-discrete r.active r.self_id)
      (elim (next_node layout moved) [
        | none ↦ stay moved event
        | some next ↦ some (cross moved next)
      ])
      (some (r, remote r.active event ∷ []))

-- `if let InputEvent::Key { code, pressed, .. } = event`
unfoldable pub track : ModifierState → InputEvent → ModifierState
unfolding update
track s (InputEvent.key code pressed _) = (update s code pressed).0
track s _ = s

unfoldable pub on_key : Router → InputEvent → Router × Routed
unfolding track
on_key r event = (
  record r { modifiers = track r.modifiers event },
  ite (NodeId-discrete r.active r.self_id) (local event) (remote r.active event),
)
