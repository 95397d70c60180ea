-- ===== src/InputRouter/Router/Tests.antt =====
-- A router between two nodes.
use borderless.Base.{
  ℕ, ◌≡◌, ◌≢◌, refl, Bool, true, false, Option, none, some, List, [], ◌∷◌, map, arith,
}
use borderless.Base.Int.{pos, negsuc}
use borderless.Core.HidUsage
use borderless.Core.Input.{InputEvent}
use borderless.Core.Node.{NodeId}
use borderless.InputRouter.Layout
use borderless.InputRouter.Layout.{Layout, Edge, right, left, top, opposite, connect, neighbor}
use borderless.InputRouter.Layout.Neighbor.{IsSymmetric, connect-IsSymmetric, reconnect_dangles}
use borderless.InputRouter.Router.{Router, Routed, local, remote, new, on_mouse_move}
use borderless.InputRouter.Router.Bounds.{
  IsValid, Moved, new-IsValid, on_mouse_move-Moved, on_mouse_move-IsValid,
}
use borderless.InputRouter.Router.Trace.{Input, move, key, run, Ran, run-Ran}
use borderless.InputRouter.Router.Focus.{event_of, focus_never_returns}

abbrev node : ℕ → NodeId
node n = record { bytes = n ∷ [] }

abbrev layout : Layout
layout = connect Layout.new (node 0) right (node 1)

abbrev router : Router
router = new (node 0) 100 50

router-IsValid : IsValid router
router-IsValid = new-IsValid (node 0) 100 50 (omega arith) (omega arith) (omega arith) (omega arith)

stays :
    on_mouse_move router (negsuc 999) (pos 0) 0 layout
    ≡ some (record router { x = pos 0 }, local (InputEvent.mouse_move (negsuc 999) (pos 0) 0) ∷ [])
unfolding on_mouse_move borderless.Core.Node.NodeId-discrete new borderless.Base.ℕ_discrete neighbor
    borderless.Base.Dict.lookup connect borderless.Base.Dict.insert Layout.new Layout.Side-discrete
stays = refl

on_mouse_move-IsValid_example :
    (q : Router × List Routed) × (on_mouse_move router (pos 60) (pos 0) 0 layout ≡ some q)
    × IsValid q.0
on_mouse_move-IsValid_example =
    on_mouse_move-IsValid router (pos 60) (pos 0) 0 layout router-IsValid

on_mouse_move-Moved_example :
    Moved router (pos 60) (pos 0) 0 layout (on_mouse_move router (pos 60) (pos 0) 0 layout)
on_mouse_move-Moved_example = on_mouse_move-Moved router (pos 60) (pos 0) 0 layout router-IsValid

-- A key, the crossing and a key behind it.
abbrev inputs : List Input
inputs = key HidUsage.lshift true 0 ∷ move (pos 60) (pos 0) 0 ∷ key HidUsage.key_a true 0 ∷ []

run-Ran_example : Ran layout router inputs
run-Ran_example = run-Ran layout router inputs router-IsValid

abbrev away : Router
away = record router { active = node 1 }

elsewhere : away.active ≢ away.self_id
unfolding new
elsewhere e = ground arith

focus_never_returns_example :
    (q : Router) × (run layout away inputs
      ≡ some (q, map (λ i. remote away.active (event_of i)) inputs))
    × (q.active ≡ away.active)
focus_never_returns_example = focus_never_returns layout away inputs elsewhere

new-IsSymmetric : IsSymmetric Layout.new
unfolding neighbor borderless.Base.Dict.lookup Layout.new
new-IsSymmetric a b e h = cc

connect-IsSymmetric_example : IsSymmetric layout
unfolding neighbor borderless.Base.Dict.lookup Layout.new
connect-IsSymmetric_example =
    connect-IsSymmetric Layout.new (node 0) (node 1) right refl refl new-IsSymmetric

reconnect_dangles_example :
    (neighbor (connect layout (node 0) right (node 2)) (node 0) right ≡ some (node 2))
    × (neighbor (connect layout (node 0) right (node 2)) (node 1) (opposite right) ≡ some (node 0))
unfolding neighbor borderless.Base.Dict.lookup connect borderless.Base.Dict.insert Layout.new
    Layout.Side-discrete borderless.Base.ℕ_discrete
reconnect_dangles_example = reconnect_dangles layout (node 0) (node 2) (node 1) right refl (λ e. cc)
