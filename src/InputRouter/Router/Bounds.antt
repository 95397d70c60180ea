-- ===== src/InputRouter/Router/Bounds.antt =====
-- The cursor stays on the screen, and no move panics.
use borderless.Base.{
  ℕ, ◌^◌, ◌≤◌, ◌<◌, ◌≡◌, ◌≢◌, refl, Option, none, some, List, [], ◌∷◌, arith, if◌then◌else◌,
  Option-cases, if_pos, inl, inr,
}
use borderless.Base.Int.{ℤ, pos, ◌+ℤ◌, ◌≤ℤ◌, ◌<ℤ◌, ltb_ℤ, -ℤ_parts}
use borderless.Base.Word.{wrap_i32}
use borderless.Core.Input.{InputEvent}
use borderless.Core.Node.{NodeId, NodeId-discrete}
use borderless.InputRouter.Layout.{Layout}
use borderless.InputRouter.Router.{
  Router, Routed, local, remote, saturating_pred, clamp_from_zero, new, stay, cross, next_node,
  on_mouse_move, on_key,
}

-- The screen is not empty, and the cursor is on it.
pub record IsValid (r : Router) : Type 0 where
  pub wide : pos 1 ≤ℤ r.width
  pub high : pos 1 ≤ℤ r.height
  pub x_low : pos 0 ≤ℤ r.x
  pub x_high : r.x <ℤ r.width
  pub y_low : pos 0 ≤ℤ r.y
  pub y_high : r.y <ℤ r.height

pub new-IsValid :
    (self_id : NodeId) (width height : ℕ)
    → 1 ≤ width
    → width < 2 ^ 31
    → 1 ≤ height
    → height < 2 ^ 31
    → IsValid (new self_id width height)
unfolding new
new-IsValid self_id width height w w' h h' = ground arith

saturating_pred_lem : (z : ℤ) → pos 1 ≤ℤ z → (pos 0 ≤ℤ saturating_pred z) × (saturating_pred z <ℤ z)
saturating_pred_lem z h = ground (arith, -ℤ_parts z (pos 1))

abbrev clamped : ℤ → ℤ → ℤ
clamped hi z = if ltb_ℤ z (pos 0) then pos 0 else if ltb_ℤ hi z then hi else z

clamp_lem :
    (hi z : ℤ)
    → pos 0 ≤ℤ hi
    → (clamp_from_zero hi z ≡ some (clamped hi z)) × (pos 0 ≤ℤ clamped hi z) × (clamped hi z ≤ℤ hi)
clamp_lem hi z h = ground arith

abbrev clamped_router : Router → Router
clamped_router r = record r {
  x = clamped (saturating_pred r.width) r.x;
  y = clamped (saturating_pred r.height) r.y;
}

-- A coordinate is clamped onto the screen.
clamped_on_screen :
    (size z : ℤ)
    → pos 1 ≤ℤ size
    → (pos 0 ≤ℤ clamped (saturating_pred size) z) × (clamped (saturating_pred size) z <ℤ size)
clamped_on_screen size z h =
    let (low, under) = saturating_pred_lem size h in
    let (_, above, below) = clamp_lem (saturating_pred size) z low in (above, omega arith)

-- With no neighbour the cursor is clamped onto the screen, and the move is delivered locally.
pub stay-clamped :
    (r : Router) (event : InputEvent)
    → pos 1 ≤ℤ r.width
    → pos 1 ≤ℤ r.height
    → (stay r event ≡ some (clamped_router r, local event ∷ [])) × IsValid (clamped_router r)
unfolding stay
stay-clamped r event w h =
    let (x_low, x_high) = clamped_on_screen r.width r.x w in
    let (y_low, y_high) = clamped_on_screen r.height r.y h in
    (
      rw
          (
            (clamp_lem (saturating_pred r.width) r.x (saturating_pred_lem r.width w).0).0,
            (clamp_lem (saturating_pred r.height) r.y (saturating_pred_lem r.height h).0).0,
            stay,
          )
          refl,
      record { wide = w; high = h; x_low = x_low; x_high = x_high; y_low = y_low; y_high = y_high },
    )

pub cross-IsValid :
    (r : Router) (next : NodeId) → pos 1 ≤ℤ r.width → pos 1 ≤ℤ r.height → IsValid (cross r next).0
unfolding cross
cross-IsValid r next w h = ground arith

abbrev pub moved : Router → ℤ → ℤ → Router
moved r dx dy = record r { x = wrap_i32 (r.x +ℤ dx); y = wrap_i32 (r.y +ℤ dy) }

-- How a mouse move may end. Each case has the test that leads to it.
pub data Moved (r : Router) (dx dy : ℤ) (ts : ℕ) (layout : Layout)
    (result : Option (Router × List Routed)) : Type 0 where
  forwarded :
      r.active ≢ r.self_id
      → result ≡ some (r, remote r.active (InputEvent.mouse_move dx dy ts) ∷ [])
      → Moved r dx dy ts layout result
  stayed :
      r.active ≡ r.self_id
      → next_node layout (moved r dx dy) ≡ none
      → result ≡ some (clamped_router (moved r dx dy), local (InputEvent.mouse_move dx dy ts) ∷ [])
      → Moved r dx dy ts layout result
  crossed :
      (next : NodeId)
      → r.active ≡ r.self_id
      → next_node layout (moved r dx dy) ≡ some next
      → result ≡ some (cross (moved r dx dy) next)
      → Moved r dx dy ts layout result

pub on_mouse_move-Moved :
    (r : Router) (dx dy : ℤ) (ts : ℕ) (layout : Layout)
    → IsValid r
    → Moved r dx dy ts layout (on_mouse_move r dx dy ts layout)
unfolding on_mouse_move
on_mouse_move-Moved r dx dy ts layout v = elim (NodeId-discrete r.active r.self_id) [
  | no away ↦ forwarded away (ground arith)
  | yes home ↦ elim (Option-cases (next_node layout (moved r dx dy))) [
    | inl e ↦ stayed home e (
        rw (if_pos _ home) (rw (e, on_mouse_move) (stay-clamped (moved r dx dy) _ v.wide v.high).0))
    | inr (next, e) ↦ crossed next home e (rw (if_pos _ home) (rw (e, on_mouse_move)))
  ]
]

-- A move never panics on a screen that is not empty, and leaves the cursor on the screen, if that is
-- where the cursor was before it.
pub on_mouse_move-IsValid :
    (r : Router) (dx dy : ℤ) (ts : ℕ) (layout : Layout)
    → IsValid r
    → (q : Router × List Routed) × (on_mouse_move r dx dy ts layout ≡ some q) × IsValid q.0
on_mouse_move-IsValid r dx dy ts layout v = elim (on_mouse_move-Moved r dx dy ts layout v) [
  | forwarded _ e ↦ (_, e, v)
  | stayed _ _ e ↦
      (_, e, (stay-clamped (moved r dx dy) (InputEvent.mouse_move dx dy ts) v.wide v.high).1)
  | crossed next _ _ e ↦ (_, e, cross-IsValid (moved r dx dy) next v.wide v.high)
]

pub on_key-IsValid : (r : Router) (event : InputEvent) → IsValid r → IsValid (on_key r event).0
unfolding on_key
on_key-IsValid r event v = ground arith

stay_empty : (r : Router) (event : InputEvent) → r.width ≤ℤ pos 0 → stay r event ≡ none
unfolding stay
stay_empty r event w = ground arith

-- On an empty screen a move that stays local panics.
pub empty_screen_panics :
    (r : Router) (dx dy : ℤ) (ts : ℕ) (layout : Layout)
    → r.width ≤ℤ pos 0
    → r.active ≡ r.self_id
    → next_node layout (moved r dx dy) ≡ none
    → on_mouse_move r dx dy ts layout ≡ none
unfolding on_mouse_move
empty_screen_panics r dx dy ts layout w home e =
    rw (if_pos _ home) (rw (e, on_mouse_move) (stay_empty (moved r dx dy) _ w))
