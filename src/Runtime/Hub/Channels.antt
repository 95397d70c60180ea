-- ===== src/Runtime/Hub/Channels.antt =====
-- What a broadcast puts on each channel.
use borderless.Base.{
  if◌then◌else◌, ℕ, ◌≡◌, ◌≢◌, refl, sym, ◌∙◌, inl, inr, Bool, true, false, List, [], ◌∷◌, ◌++◌,
  Option, none, some, Option-cases, ite, ℕ_discrete, arith,
}
use borderless.Base.Dict.{Dict, lookup, lookup-insert}
use borderless.Core.Node.{NodeId, NodeId-discrete}
use borderless.Core.Wire.{WireFrame}
use borderless.Runtime.Hub.{Channels, send, is_excluded, broadcast_to_all}

-- What is on a channel when one more frame is sent on it; nothing on one whose writer has ended.
unfoldable pub appended : List WireFrame → Option (List WireFrame) → Option (List WireFrame)
appended frames none = none
appended frames (some sent) = some (sent ++ frames)

pub lookup-send :
    (tx tx' : ℕ) (frame : WireFrame) (channels : Channels)
    → lookup ℕ_discrete tx' (send tx frame channels)
      ≡ ite
          (ℕ_discrete tx tx')
          (appended (frame ∷ []) (lookup ℕ_discrete tx' channels))
          (lookup ℕ_discrete tx' channels)
unfolding send appended
lookup-send tx tx' frame channels = elim (Option-cases (lookup ℕ_discrete tx channels)) [
  | inl e ↦ rw (e, send) (ground arith)
  | inr (sent, e) ↦
      rw (e, send) (ground (arith, lookup-insert ℕ_discrete tx' tx (sent ++ (frame ∷ [])) channels))
]

-- The channel is not in the map.
unfoldable pub NotIn : ℕ → Dict NodeId ℕ → Type 0
NotIn tx [] = Unit
NotIn tx ((p, t) ∷ w) = (t ≢ tx) × NotIn tx w

-- No two peers have the same channel.
unfoldable pub IsDistinct : Dict NodeId ℕ → Type 0
unfolding NotIn
IsDistinct [] = Unit
IsDistinct ((p, t) ∷ w) = NotIn t w × IsDistinct w

-- What a broadcast does on the channel of one entry of the map.
send_unless :
    (tx t : ℕ) (frame : WireFrame) (b : Bool) (channels : Channels)
    → t ≢ tx
    → lookup ℕ_discrete tx (elim b [ true ↦ channels | false ↦ send t frame channels ])
      ≡ lookup ℕ_discrete tx channels
send_unless tx t frame true channels n = refl
send_unless tx t frame false channels n = ground (arith, lookup-send t tx frame channels)

pub broadcast-NotIn :
    (tx : ℕ) (writers : Dict NodeId ℕ) (frame : WireFrame) (exclude : Option NodeId)
    (channels : Channels)
    → NotIn tx writers
    → lookup ℕ_discrete tx (broadcast_to_all writers frame exclude channels)
      ≡ lookup ℕ_discrete tx channels
unfolding NotIn broadcast_to_all
broadcast-NotIn tx [] frame exclude channels n = refl
broadcast-NotIn tx ((p, t) ∷ w) frame exclude channels n =
    broadcast-NotIn tx w frame exclude _ n.1
    ∙ send_unless tx t frame (is_excluded exclude p) channels n.0

sent_on_own :
    (tx : ℕ) (frame : WireFrame) (b : Bool) (channels : Channels)
    → lookup ℕ_discrete tx (elim b [ true ↦ channels | false ↦ send tx frame channels ]) ≡ (
        if b
        then lookup ℕ_discrete tx channels
        else appended (frame ∷ []) (lookup ℕ_discrete tx channels))
sent_on_own tx frame true channels = refl
sent_on_own tx frame false channels = ground (arith, lookup-send tx tx frame channels)

NotIn-lookup :
    (tx : ℕ) (peer : NodeId) (writers : Dict NodeId ℕ) (t : ℕ)
    → NotIn t writers
    → lookup NodeId-discrete peer writers ≡ some tx
    → t ≢ tx
unfolding NotIn lookup
NotIn-lookup tx peer [] t n e = cc
NotIn-lookup tx peer ((p, u) ∷ w) t n e = ground (arith, NotIn-lookup tx peer w t)

-- A broadcast puts the frame, once and at the end, on the channel of every peer in the map but the
-- excluded one, whose channel it leaves; a channel whose writer has ended stays closed.
pub lookup-broadcast_to_all :
    (peer : NodeId) (tx : ℕ) (writers : Dict NodeId ℕ) (frame : WireFrame) (exclude : Option NodeId)
    (channels : Channels)
    → IsDistinct writers
    → lookup NodeId-discrete peer writers ≡ some tx
    → lookup ℕ_discrete tx (broadcast_to_all writers frame exclude channels) ≡ (
        if is_excluded exclude peer
        then lookup ℕ_discrete tx channels
        else appended (frame ∷ []) (lookup ℕ_discrete tx channels))
unfolding IsDistinct broadcast_to_all lookup
lookup-broadcast_to_all peer tx [] frame exclude channels d e = cc
lookup-broadcast_to_all peer tx ((p, t) ∷ w) frame exclude channels d e =
    elim (NodeId-discrete peer p) [
      | yes same ↦
          let own : t ≡ tx = ground arith in
          rw (same, sym own)
            (broadcast-NotIn t w frame exclude _ d.0
              ∙ sent_on_own t frame (is_excluded exclude p) channels)
      | no other ↦
          let later : lookup NodeId-discrete peer w ≡ some tx = ground arith in
          rw (
            lookup-broadcast_to_all peer tx w frame exclude
                (elim (is_excluded exclude p) [ true ↦ channels | false ↦ send t frame channels ])
                d.1 later,
            send_unless tx t frame (is_excluded exclude p) channels
                (NotIn-lookup tx peer w t d.0 later),
          )
    ]
