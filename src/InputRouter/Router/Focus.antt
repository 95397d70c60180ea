-- ===== src/InputRouter/Router/Focus.antt =====
-- The focus goes out and does not come back.
use borderless.Base.{◌≡◌, ◌≢◌, refl, if_neg, ◌∙◌, some, List, [], ◌∷◌, map, arith}
use borderless.Core.Input.{InputEvent}
use borderless.Core.Node.{NodeId-discrete}
use borderless.InputRouter.Layout.{Layout}
use borderless.InputRouter.Router.{Router, remote, on_mouse_move, on_key}
use borderless.InputRouter.Router.Trace.{Input, move, key, step, run}

-- The event that an input makes.
abbrev pub event_of : Input → InputEvent
event_of (move dx dy ts) = InputEvent.mouse_move dx dy ts
event_of (key code pressed modifiers) = InputEvent.key code pressed modifiers

step-away :
    (layout : Layout) (r : Router) (i : Input)
    → r.active ≢ r.self_id
    → (q : Router) × (step layout r i ≡ some (q, remote r.active (event_of i) ∷ []))
      × (q.active ≡ r.active)
      × (q.self_id ≡ r.self_id)
unfolding step on_mouse_move on_key
step-away layout r (move dx dy ts) gone = (r, ground arith, refl, refl)
step-away layout r (key code pressed modifiers) gone = (
  (on_key r (InputEvent.key code pressed modifiers)).0,
  rw (if_neg (NodeId-discrete r.active r.self_id) gone) refl,
  refl,
  refl,
)

-- Once the focus is on a remote node it stays there for ever, whatever the moves, the keys and the
-- layout: every event is forwarded to that node, as it came and in order, and the state names no
-- other node. There is no way back to the own screen.
pub focus_never_returns :
    (layout : Layout) (r : Router) (is : List Input)
    → r.active ≢ r.self_id
    → (q : Router) × (run layout r is ≡ some (q, map (λ i. remote r.active (event_of i)) is))
      × (q.active ≡ r.active)
unfolding run
focus_never_returns layout r [] gone = (r, refl, refl)
focus_never_returns layout r (i ∷ is) gone =
    let (q, e, a, s) = step-away layout r i gone in
    let (q', e', a') = focus_never_returns layout q is (rw (a, s) gone) in
    (q', rw (e, run) (rw (e', run) (rw a)), a' ∙ a)
