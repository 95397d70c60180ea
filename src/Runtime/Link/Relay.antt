-- ===== src/Runtime/Link/Relay.antt =====
-- A copy of the spoke that the hub applies and echoes.
use Prim.Native.String.{String}
use mathlib.Core.Path.{subst}
use borderless.Base.{
  ℕ, ◌<◌, ◌≡◌, ◌≢◌, refl, sym, ap, ◌∙◌, false, [], ◌∷◌, ◌++◌, some, if_pos, ℕ_discrete,
}
use borderless.Base.Dict.{lookup}
use borderless.Core.Clipboard.{ClipboardSnapshot}
use borderless.Core.Node.{NodeId, NodeId-discrete}
use borderless.Core.Wire.{WireFrame}
use borderless.Clipboard.Engine.{Inner, apply, observe_remote, produce_text}
use borderless.Pal.Clipboard.{Clipboard, changed, text_of}
use borderless.Runtime.Hub.{Hub, on_clipboard, on_local_clipboard}
use borderless.Runtime.Hub.Channels.{IsDistinct, appended}
use borderless.Runtime.Hub.FanOut.{on_frame-fans_out, decided, on_clipboard-clipboard}
use borderless.Runtime.Hub.Desk
use borderless.Runtime.Hub.Desk.{Desk, receive, tick, echoed, ticked, observed, received_clipboard}
use borderless.Runtime.Link.{Link, Step, arrive, step}
use borderless.Runtime.Link.Said.{spoke_said, spoke_says, next_version, produce_text-version}
use borderless.Runtime.Link.Crossing.{IsIdle}

-- The snapshot of the spoke's copy.
abbrev pub sent : String → ℕ → Link → ClipboardSnapshot
sent b now n = (produce_text n.spoke.engine b now).1

-- The hub's desktop once it has the copy.
abbrev pub got : NodeId → String → ℕ → Link → Desk
got peer b now n = receive peer (sent b now n) n.desk

-- The hub's next snapshot.
abbrev pub echo : NodeId → String → ℕ → ℕ → Link → ClipboardSnapshot
echo peer b now later n = (produce_text (got peer b now n).hub.clipboard b later).1

abbrev pub relayed : NodeId → String → ℕ → ℕ → Link → Link
relayed peer b now later n = record (spoke_said b now n) {
  desk = Desk.on_poll later (some b, some b) (got peer b now n);
  queue = [];
}

-- The hub can take a copy of the spoke: it is newer than what the hub has, new to both watchers, and
-- can be written.
pub record IsFresh (b : String) (n : Link) : Type 0 where
  pub apart : n.spoke.engine.self_id ≢ n.desk.hub.clipboard.self_id
  pub newer : n.desk.hub.clipboard.local_version < next_version n.spoke.engine
  pub works : n.desk.clipboard.fails ≡ false
  pub hub_new : changed n.desk.last (some b) ≡ some b
  pub spoke_new : changed n.spoke.last (some b) ≡ some b

applies :
    (b : String) (now : ℕ) (n : Link)
    → IsFresh b n
    → (observe_remote n.desk.hub.clipboard (sent b now n)).1 ≡ apply (sent b now n)
      × ((observe_remote n.desk.hub.clipboard (sent b now n)).0.self_id
          ≡ n.desk.hub.clipboard.self_id)
      × ((observe_remote n.desk.hub.clipboard (sent b now n)).0.local_version
          ≡ (sent b now n).version)
unfolding produce_text
applies b now n v = observed n.desk.hub.clipboard (sent b now n) v.apart v.newer

sent_text : (b : String) (now : ℕ) (n : Link) → text_of (sent b now n).items ≡ some b
unfolding text_of produce_text
sent_text b now n = refl

-- What the hub does with a copy of the spoke.
pub hub_relays :
    (peer : NodeId) (tx : ℕ) (b : String) (now later : ℕ) (n : Link)
    → n.queue ≡ []
    → IsFresh b n
    → step peer tx (Step.hub_polls later) (
        step peer tx Step.hub_receives
          (step peer tx (Step.spoke_polls now) (step peer tx (Step.spoke_copies b) n)))
      ≡ relayed peer b now later n
unfolding step arrive
hub_relays peer tx b now later n empty v =
    let snap = sent b now n in
    let (o, _, _) = applies b now n v in
    ap (λ k. step peer tx (Step.hub_polls later) (step peer tx Step.hub_receives k))
      (spoke_says peer tx b now n v.spoke_new)
    ∙ ap
        (λ q.
          step peer tx (Step.hub_polls later) (arrive peer (q ++ (snap ∷ [])) (spoke_said b now n)))
        empty
    ∙ ap (λ d. record (spoke_said b now n) { desk = d; queue = [] })
        (ticked peer snap n.desk b later o (sent_text b now n) v.works v.hub_new)

pub got-version :
    (peer : NodeId) (b : String) (now : ℕ) (n : Link)
    → IsFresh b n
    → ((got peer b now n).hub.clipboard.local_version ≡ next_version n.spoke.engine)
      × ((got peer b now n).hub.clipboard.self_id ≡ n.desk.hub.clipboard.self_id)
unfolding receive borderless.Runtime.Hub.on_frame
got-version peer b now n v =
    let snap = sent b now n in
    let (o, id, version) = applies b now n v in
    let engine = on_clipboard-clipboard peer snap n.desk.hub (apply snap) o in
    let (made, _) = produce_text-version n.spoke.engine b now in
    (
      ap (λ (g : Inner). g.local_version) engine ∙ version ∙ made,
      ap (λ (g : Inner). g.self_id) engine ∙ id,
    )

pub got-text :
    (peer : NodeId) (b : String) (now : ℕ) (n : Link)
    → IsFresh b n
    → (got peer b now n).clipboard.content ≡ some b
got-text peer b now n v =
    let (o, _, _) = applies b now n v in
    ap (λ (c : Clipboard). c.content)
      (received_clipboard peer (sent b now n) n.desk b o (sent_text b now n) v.works)

-- The echo is alone on the spoke's channel.
pub relayed-channel :
    (peer : NodeId) (tx : ℕ) (b : String) (now later : ℕ) (n : Link)
    → IsIdle peer tx n
    → IsFresh b n
    → lookup ℕ_discrete tx (relayed peer b now later n).desk.hub.channels
      ≡ some (WireFrame.clipboard (echo peer b now later n) ∷ [])
unfolding Desk.on_poll receive appended borderless.Runtime.Hub.on_frame
relayed-channel peer tx b now later n idle v =
    let snap = sent b now n in
    let h = on_clipboard peer snap n.desk.hub in
    let (o, _, _) = applies b now n v in
    let same : h.writers ≡ n.desk.hub.writers =
      ap (λ (x : Hub). x.writers) (decided peer snap n.desk.hub (apply snap) o) in
    let skipped =
      on_frame-fans_out peer peer tx snap n.desk.hub idle.distinct idle.connected
      ∙ if_pos (NodeId-discrete peer peer) refl _ _
      ∙ idle.no_frames in
    echoed peer tx h b later (subst IsDistinct (sym same) idle.distinct)
      (ap (lookup NodeId-discrete peer) same ∙ idle.connected)
    ∙ ap (appended (WireFrame.clipboard (echo peer b now later n) ∷ [])) skipped
