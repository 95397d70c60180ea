-- ===== src/InputRouter/Layout.antt =====
-- crates/input-router/src/layout.rs: screens and the map of adjacent edges.
pub mod Neighbor
use borderless.Base.{ℕ, List, [], Option, Bool, true, false, ◌∷◌}
use borderless.Base.Dict.{Dict, lookup, insert}
use borderless.Core.Node.{NodeId, NodeId-discrete}

pub data Edge : Type 0 where
  left right top bottom : Edge

unfoldable pub opposite : Edge → Edge
opposite left = right
opposite right = left
opposite top = bottom
opposite bottom = top

pub record Screen : Type 0 where
  pub node : NodeId
  pub width : ℕ
  pub height : ℕ

abbrev pub Side : Type 0
Side = NodeId × Edge

unfoldable pub Edge-discrete : Discrete Edge
Edge-discrete = hlevel

unfoldable pub Side-discrete : Discrete Side
unfolding NodeId-discrete Edge-discrete
Side-discrete = hlevel (NodeId-discrete, Edge-discrete)

pub record Layout : Type 0 where
  pub screens : Dict NodeId Screen
  pub adjacency : Dict Side NodeId

unfoldable pub new : Layout
new = record { screens = []; adjacency = [] }

unfoldable pub set_screen : Layout → Screen → Layout
set_screen l screen = record l { screens = insert NodeId-discrete screen.node screen l.screens }

unfoldable pub connect : Layout → NodeId → Edge → NodeId → Layout
unfolding opposite
connect l from edge to = record l {
  adjacency =
      insert Side-discrete (to, opposite edge) from
        (insert Side-discrete (from, edge) to l.adjacency);
}

unfoldable pub neighbor : Layout → NodeId → Edge → Option NodeId
neighbor l node edge = lookup Side-discrete (node, edge) l.adjacency

unfoldable pub is_empty : Layout → Bool
is_empty l = elim l.screens [ [] ↦ true | _ ∷ _ ↦ false ]

unfoldable pub screen : Layout → NodeId → Option Screen
screen l node = lookup NodeId-discrete node l.screens
