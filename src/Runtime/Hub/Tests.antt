-- ===== src/Runtime/Hub/Tests.antt =====
-- A hub with two spokes.
use borderless.Base.{
  ℕ, ◌≡◌, ◌≢◌, refl, ap, false, ite, Option, none, some, List, [], ◌∷◌, ℕ_discrete, arith,
}
use borderless.Base.Dict.{lookup}
use borderless.Core.Clipboard.{ClipItem, ClipboardSnapshot}
use borderless.Core.Node.{NodeId, NodeId-discrete}
use borderless.Core.Wire.{WireFrame}
use borderless.Clipboard.Engine
use borderless.Clipboard.Lazy
use borderless.Runtime.Hub.{Hub, on_frame}
use borderless.Runtime.Hub.Channels.{NotIn, appended}
use borderless.Runtime.Hub.FanOut.{forwarded, on_frame-fans_out, on_frame-serves_fetch, IsReply}
use borderless.Pal.Clipboard.{text_of, changed}
use borderless.Runtime.Hub.Desk.{Desk, receive, tick, echo_of, tick-echoes}
use borderless.Runtime.Hub.Session.{IsValid}

abbrev node : ℕ → NodeId
node n = record { bytes = n ∷ [] }

abbrev hub : Hub
hub = record {
  writers = (node 1, 0) ∷ (node 2, 1) ∷ [];
  channels = (0, []) ∷ (1, []) ∷ [];
  next_channel = 2;
  clipboard = record { self_id = node 0; local_version = 3; history = []; history_limit = 4 };
  lazy = record {
    by_hash = (7 ∷ [], 8 ∷ 9 ∷ []) ∷ [];
    order = (7 ∷ []) ∷ [];
    total_bytes = 2;
    cap = 9;
  };
  applied = [];
}

abbrev head_or : List ℕ → ℕ
head_or [] = 0
head_or (n ∷ ns) = n

abbrev snap : ClipboardSnapshot
snap = record { version = 5; origin = node 1; created_unix_ms = 0; items = [] }

hub-IsValid : IsValid hub
unfolding IsValid NotIn
hub-IsValid = ((((λ e. omega arith), tt), (tt, tt)), (omega arith, (omega arith, tt)))

second_spoke : lookup NodeId-discrete (node 2) hub.writers ≡ some 1
unfolding lookup NodeId-discrete ℕ_discrete
second_spoke = refl

forwarded_to_second :
    lookup ℕ_discrete 1 (on_frame (node 1) (WireFrame.clipboard snap) hub).channels
    ≡ some (WireFrame.clipboard snap ∷ [])
unfolding lookup on_frame Engine.observe_remote NodeId-discrete ℕ_discrete borderless.Base.dec_le
    borderless.Base.Dict.insert
forwarded_to_second = refl

on_frame-fans_out_example :
    lookup ℕ_discrete 1 (on_frame (node 1) (WireFrame.clipboard snap) hub).channels
    ≡ ite (NodeId-discrete (node 1) (node 2)) (lookup ℕ_discrete 1 hub.channels) (
        appended
          (forwarded (Engine.observe_remote hub.clipboard snap).1 snap)
          (lookup ℕ_discrete 1 hub.channels))
unfolding IsValid
on_frame-fans_out_example =
    on_frame-fans_out (node 1) (node 2) 1 snap hub hub-IsValid.0 second_spoke

on_frame-serves_fetch_example :
    (frames : List WireFrame) × (lookup ℕ_discrete 1
        (on_frame (node 2) (WireFrame.fetch_request (7 ∷ [])) hub).channels
      ≡ appended frames (lookup ℕ_discrete 1 hub.channels))
    × IsReply (7 ∷ []) (Lazy.get hub.lazy (7 ∷ [])) frames
on_frame-serves_fetch_example = on_frame-serves_fetch (node 2) 1 (7 ∷ []) hub second_spoke

abbrev copied : ClipboardSnapshot
copied = record snap { items = ClipItem.text "a" ∷ [] }

abbrev desk : Desk
desk = record { hub = hub; clipboard = record { content = none; fails = false }; last = none }

foreign : node 1 ≢ node 0
foreign e = let first = ap (λ (n : NodeId). head_or n.bytes) e in omega arith

echoed_text : text_of copied.items ≡ some "a"
unfolding text_of
echoed_text = refl

new_text : changed none (some "a") ≡ some "a"
unfolding changed
new_text = refl

tick-echoes_example :
    let r = receive (node 1) copied desk in
    lookup ℕ_discrete 1 (tick 9 r).hub.channels
    ≡ appended
        (WireFrame.clipboard (echo_of copied (node 0) "a" 9) ∷ [])
        (lookup ℕ_discrete 1 r.hub.channels)
unfolding IsValid
tick-echoes_example =
    tick-echoes (node 1) (node 2) 1 copied desk "a" 9 hub-IsValid.0 second_spoke foreign
      (omega arith) echoed_text refl new_text
