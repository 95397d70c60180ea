-- ===== src/InputRouter/Layout/Neighbor.antt =====
-- What `connect` does to the neighbours, and when the layout is symmetric.
use borderless.Base.{◌≡◌, ◌≢◌, refl, ite, none, some, arith}
use borderless.Base.Dict.{insert, lookup-insert}
use borderless.Core.Node.{NodeId}
use borderless.InputRouter.Layout.{
  Edge, left, right, top, bottom, opposite, Side, Side-discrete, Layout, connect, neighbor,
}

opposite-ne : (e : Edge) → opposite e ≢ e
unfolding opposite
opposite-ne left h = cc
opposite-ne right h = cc
opposite-ne top h = cc
opposite-ne bottom h = cc

pub opposite-opposite : (e : Edge) → opposite (opposite e) ≡ e
unfolding opposite
opposite-opposite left = refl
opposite-opposite right = refl
opposite-opposite top = refl
opposite-opposite bottom = refl

neighbor-connect :
    (l : Layout) (from to node : NodeId) (edge side : Edge)
    → neighbor (connect l from edge to) node side
      ≡ ite
          (Side-discrete (to, opposite edge) (node, side))
          (some from)
          (ite (Side-discrete (from, edge) (node, side)) (some to) (neighbor l node side))
unfolding neighbor connect
neighbor-connect l from to node edge side = ground (
  arith,
  lookup-insert Side-discrete (node, side) (to, opposite edge) from
      (insert Side-discrete (from, edge) to l.adjacency),
  lookup-insert Side-discrete (node, side) (from, edge) to l.adjacency,
)

-- Connecting makes each node the other's neighbour, across opposite edges, and changes no other
-- neighbour.
pub connect_symmetric :
    (l : Layout) (from to : NodeId) (edge : Edge)
    → (neighbor (connect l from edge to) from edge ≡ some to)
      × (neighbor (connect l from edge to) to (opposite edge) ≡ some from)
      × ((node : NodeId) (side : Edge)
          → ◌≢◌ {A = Side} (from, edge) (node, side)
          → ◌≢◌ {A = Side} (to, opposite edge) (node, side)
          → neighbor (connect l from edge to) node side ≡ neighbor l node side)
connect_symmetric l from to edge = (
  ground (arith, neighbor-connect l from to from edge edge, opposite-ne edge),
  ground (arith, neighbor-connect l from to to edge (opposite edge)),
  λ node side p q. ground (arith, neighbor-connect l from to node edge side),
)

-- Whoever can be left over an edge can be left back over the opposite one.
abbrev pub IsSymmetric : Layout → Type 0
IsSymmetric l =
    (a b : NodeId) (e : Edge) → neighbor l a e ≡ some b → neighbor l b (opposite e) ≡ some a

-- Connecting two free edges keeps a layout symmetric.
pub connect-IsSymmetric :
    (l : Layout) (from to : NodeId) (edge : Edge)
    → neighbor l from edge ≡ none
    → neighbor l to (opposite edge) ≡ none
    → IsSymmetric l
    → IsSymmetric (connect l from edge to)
connect-IsSymmetric l from to edge free free' s a b e h = ground (
  arith,
  neighbor-connect l from to a edge e,
  neighbor-connect l from to b edge (opposite e),
  s a b e,
  s b a (opposite e),
  opposite-opposite e,
  opposite-opposite edge,
  opposite-ne edge,
  opposite-ne e,
)

-- Connecting an edge that is taken leaves the old neighbour with its way back: the layout is no
-- longer symmetric.
pub reconnect_dangles :
    (l : Layout) (from to old : NodeId) (edge : Edge)
    → neighbor l old (opposite edge) ≡ some from
    → old ≢ to
    → (neighbor (connect l from edge to) from edge ≡ some to)
      × (neighbor (connect l from edge to) old (opposite edge) ≡ some from)
reconnect_dangles l from to old edge back other = (
  ground (arith, neighbor-connect l from to from edge edge, opposite-ne edge),
  ground (arith, neighbor-connect l from to old edge (opposite edge), opposite-ne edge),
)
