-- ===== src/Runtime/Hub/Session.antt =====
-- The sessions of the spokes: a valid map of channels.
pub mod Stale
use borderless.Base.{ℕ, suc, ◌≤◌, ◌<◌, ◌≡◌, ◌≢◌, ◌∙◌, [], ◌∷◌, Option, some, ℕ_discrete, arith}
use borderless.Base.Dict.{Dict, lookup, insert, remove, lookup-insert_self}
use borderless.Core.Node.{NodeId, NodeId-discrete}
use borderless.Core.Wire.{WireFrame}
use borderless.Runtime.Hub.{Hub, start_session, end_session, broadcast_to_all}
use borderless.Runtime.Hub.Channels.{NotIn, IsDistinct, broadcast-NotIn}

-- Every channel of the map was made.
unfoldable pub IsBelow : ℕ → Dict NodeId ℕ → Type 0
IsBelow n [] = Unit
IsBelow n ((p, t) ∷ w) = (t < n) × IsBelow n w

unfoldable pub IsValid : Hub → Type 0
unfolding IsDistinct IsBelow
IsValid h = IsDistinct h.writers × IsBelow h.next_channel h.writers

pub IsBelow-NotIn : (n t : ℕ) (w : Dict NodeId ℕ) → IsBelow n w → n ≤ t → NotIn t w
unfolding IsBelow NotIn
IsBelow-NotIn n t [] b l = tt
IsBelow-NotIn n t ((p, u) ∷ w) b l = ((λ e. omega arith), IsBelow-NotIn n t w b.1 l)

pub insert-NotIn :
    (t u : ℕ) (p : NodeId) (w : Dict NodeId ℕ)
    → t ≢ u
    → NotIn u w
    → NotIn u (insert NodeId-discrete p t w)
unfolding NotIn insert
insert-NotIn t u p [] n h = (n, tt)
insert-NotIn t u p ((q, v) ∷ w) n h = ground (arith, insert-NotIn t u p w)

insert-IsDistinct :
    (t : ℕ) (p : NodeId) (w : Dict NodeId ℕ)
    → NotIn t w
    → IsDistinct w
    → IsDistinct (insert NodeId-discrete p t w)
unfolding IsDistinct NotIn insert
insert-IsDistinct t p [] n h = (tt, tt)
insert-IsDistinct t p ((q, v) ∷ w) n h =
    ground (arith, insert-IsDistinct t p w, insert-NotIn t v p w)

IsBelow-suc : (n : ℕ) (w : Dict NodeId ℕ) → IsBelow n w → IsBelow (suc n) w
unfolding IsBelow
IsBelow-suc n [] h = tt
IsBelow-suc n ((p, t) ∷ w) h = (omega (arith, h.0), IsBelow-suc n w h.1)

insert-IsBelow :
    (t : ℕ) (p : NodeId) (w : Dict NodeId ℕ)
    → IsBelow t w
    → IsBelow (suc t) (insert NodeId-discrete p t w)
unfolding IsBelow insert
insert-IsBelow t p [] h = (omega arith, tt)
insert-IsBelow t p ((q, v) ∷ w) h = ground (arith, insert-IsBelow t p w, IsBelow-suc t w)

pub remove-NotIn :
    (u : ℕ) (p : NodeId) (w : Dict NodeId ℕ) → NotIn u w → NotIn u (remove NodeId-discrete p w)
unfolding NotIn remove
remove-NotIn u p [] h = tt
remove-NotIn u p ((q, v) ∷ w) h = ground (arith, remove-NotIn u p w)

-- No entry of the map is left for a channel whose peer is removed.
pub remove_own :
    (t : ℕ) (p : NodeId) (w : Dict NodeId ℕ)
    → NotIn t w
    → NotIn t (remove NodeId-discrete p (insert NodeId-discrete p t w))
unfolding NotIn remove insert
remove_own t p [] n = ground arith
remove_own t p ((q, v) ∷ w) n = ground (arith, remove_own t p w, remove-NotIn t p w)

pub start_session-IsValid : (p : NodeId) (h : Hub) → IsValid h → IsValid (start_session p h)
unfolding IsValid start_session
start_session-IsValid p h v = (
  insert-IsDistinct h.next_channel p h.writers
      (IsBelow-NotIn h.next_channel h.next_channel h.writers v.1 (omega arith)) v.0,
  insert-IsBelow h.next_channel p h.writers v.1,
)
