-- ===== src/Runtime/Link/Answered.antt =====
-- A copy of the hub that the spoke applies and echoes.
use Prim.Native.String.{String}
use mathlib.Core.Path.{subst}
use borderless.Base.{
  ℕ, ◌<◌, ◌≡◌, ◌≢◌, refl, sym, ap, ◌∙◌, false, List, [], ◌∷◌, ◌++◌, some, if_pos, ℕ_discrete, All,
}
use borderless.Base.Dict.{lookup, insert, lookup-insert_self}
use borderless.Core.Clipboard.{ClipboardSnapshot}
use borderless.Core.Node.{NodeId, NodeId-discrete}
use borderless.Core.Wire.{WireFrame}
use borderless.Clipboard.Engine.{Inner, apply, observe_remote, produce_text}
use borderless.Clipboard.Engine.Echo.{dropped, taken, observe_remote-Outcome}
use borderless.Pal.Clipboard.{Clipboard, changed, text_of}
use borderless.Runtime.Hub.{on_local_clipboard}
use borderless.Runtime.Hub.Channels.{appended}
use borderless.Runtime.Hub.FanOut.{on_frame-fans_out}
use borderless.Runtime.Hub.Desk.{Desk, written, observed, receive, echoed, polled}
use borderless.Runtime.Link.{
  Link, Side, Step, on_clipboard, on_frame, on_poll, tick_spoke, arrive, deliver, step, run,
}
use borderless.Runtime.Link.Rest.{IsAtRest, IsOldChannel, IsWork, run-IsAtRest}
use borderless.Runtime.Link.Said.{hub_said, hub_says, next_version}
use borderless.Runtime.Link.Crossing.{IsIdle}
use borderless.Runtime.Link.Settled.{written_again}

-- The spoke can take a copy of the hub.
pub record IsFresh (b : String) (n : Link) : Type 0 where
  pub apart : n.desk.hub.clipboard.self_id ≢ n.spoke.engine.self_id
  pub newer : n.spoke.engine.local_version < next_version n.desk.hub.clipboard
  pub works : n.spoke.clipboard.fails ≡ false
  pub hub_new : changed n.desk.last (some b) ≡ some b
  pub spoke_new : changed n.spoke.last (some b) ≡ some b

-- The snapshot of the hub's copy.
abbrev sent : String → ℕ → Link → ClipboardSnapshot
sent b now n = (produce_text n.desk.hub.clipboard b now).1

-- The spoke's engine once it has the copy.
abbrev heard : String → ℕ → Link → Inner
heard b now n = (observe_remote n.spoke.engine (sent b now n)).0

abbrev answer : String → ℕ → ℕ → Link → ClipboardSnapshot
answer b now later n = (produce_text (heard b now n) b later).1

-- The hub's desktop once the spoke has taken the only frame from its channel.
abbrev drained : ℕ → String → ℕ → Link → Desk
drained tx b now n =
    let d = hub_said b now n.desk in
    record d { hub = record d.hub { channels = insert ℕ_discrete tx [] d.hub.channels } }

-- The link with the spoke's answer under way.
abbrev answering : ℕ → String → ℕ → ℕ → Link → Link
answering tx b now later n = record {
  desk = drained tx b now n;
  spoke = record {
    engine = (produce_text (heard b now n) b later).0;
    clipboard = record n.spoke.clipboard { content = some b };
    last = some b;
  };
  queue = n.queue ++ (answer b now later n ∷ []);
}

spoke_applies :
    (b : String) (now : ℕ) (n : Link)
    → IsFresh b n
    → on_clipboard (sent b now n) n.spoke ≡ record n.spoke {
      engine = heard b now n;
      clipboard = record n.spoke.clipboard { content = some b };
    }
unfolding on_clipboard written borderless.Pal.Clipboard.write borderless.Pal.Clipboard.set_text
    text_of produce_text
spoke_applies b now n v =
    let (o, _, _) = observed n.spoke.engine (sent b now n) v.apart v.newer in rw (o, v.works) refl

spoke_answers :
    (b : String) (later : ℕ) (n : Link) (s : Side)
    → changed s.last (some b) ≡ some b
    → tick_spoke later
        (record n { spoke = record s { clipboard = record s.clipboard { content = some b } } })
      ≡ record n {
        spoke = record s {
          engine = (produce_text s.engine b later).0;
          clipboard = record s.clipboard { content = some b };
          last = some b;
        };
        queue = n.queue ++ ((produce_text s.engine b later).1 ∷ []);
      }
unfolding tick_spoke on_poll
spoke_answers b later n s new =
    ap
      (λ p.
        on_poll later p
          (record n { spoke = record s { clipboard = record s.clipboard { content = some b } } }))
      (polled s.last s.clipboard b new)

hub_frame :
    (peer : NodeId) (tx : ℕ) (b : String) (now : ℕ) (n : Link)
    → IsIdle peer tx n
    → lookup ℕ_discrete tx (hub_said b now n.desk).hub.channels
      ≡ some (WireFrame.clipboard (sent b now n) ∷ [])
unfolding appended
hub_frame peer tx b now n idle =
    echoed peer tx n.desk.hub b now idle.distinct idle.connected
    ∙ ap (appended (WireFrame.clipboard (sent b now n) ∷ [])) idle.no_frames

-- What the spoke does with a copy of the hub.
spoke_relays :
    (peer : NodeId) (tx : ℕ) (b : String) (now later : ℕ) (n : Link)
    → IsIdle peer tx n
    → IsFresh b n
    → step peer tx (Step.spoke_polls later) (
        step peer tx Step.spoke_receives
          (step peer tx (Step.hub_polls now) (step peer tx (Step.hub_copies b) n)))
      ≡ answering tx b now later n
unfolding step deliver on_frame
spoke_relays peer tx b now later n idle v =
    let n1 = record n { desk = hub_said b now n.desk } in
    ap (λ k. step peer tx (Step.spoke_polls later) (step peer tx Step.spoke_receives k))
      (hub_says peer tx b now n v.hub_new)
    ∙ ap (λ o. tick_spoke later (deliver tx o n1)) (hub_frame peer tx b now n idle)
    ∙ ap (λ s. tick_spoke later (record n { desk = drained tx b now n; spoke = s }))
        (spoke_applies b now n v)
    ∙ spoke_answers b later (record n { desk = drained tx b now n })
        (record n.spoke { engine = heard b now n }) v.spoke_new

-- Whether or not the hub applies the answer, the text stays.
received-text :
    (peer : NodeId) (g : Inner) (b : String) (later : ℕ) (d : Desk) (c : Clipboard)
    → d.clipboard ≡ record c { content = some b }
    → (receive peer (produce_text g b later).1 d).clipboard.content ≡ some b
unfolding receive written
received-text peer g b later d c e =
    let snap = (produce_text g b later).1 in
    elim (observe_remote-Outcome d.hub.clipboard snap) [
      | dropped _ o ↦ ap (λ r. (written r.1 d.clipboard).content) o ∙ ap (λ k. k.content) e
      | taken _ _ o _ ↦
          ap (λ r. (written r d.clipboard).content) o
          ∙ ap (λ k. (written (apply snap) k).content) e
          ∙ written_again g b later c
    ]

answered-IsAtRest :
    (peer : NodeId) (tx : ℕ) (b : String) (now later : ℕ) (n : Link)
    → IsIdle peer tx n
    → IsAtRest tx b b (record (answering tx b now later n) {
      desk = receive peer (answer b now later n) (drained tx b now n);
      queue = [];
    })
unfolding receive on_local_clipboard
answered-IsAtRest peer tx b now later n idle =
    let h = (drained tx b now n).hub in
    let skipped =
      on_frame-fans_out peer peer tx (answer b now later n) h idle.distinct idle.connected
      ∙ if_pos (NodeId-discrete peer peer) refl _ _
      ∙ lookup-insert_self ℕ_discrete tx [] (hub_said b now n.desk).hub.channels in
    record {
      hub_text =
          received-text peer (heard b now n) b later (drained tx b now n) n.desk.clipboard refl;
      hub_last = refl;
      spoke_text = refl;
      spoke_last = refl;
      hub_old = tt;
      spoke_old =
          subst (IsOldChannel (produce_text (heard b now n) b later).0.local_version) (sym skipped)
            tt;
    }

-- A copy of the hub that nothing crosses arrives, and its echo ends with the hub. On a session with
-- nothing under way the hub copies a text that the spoke can take: newer than the spoke's clock, new
-- to both watchers, from another node, and written without an error. When the spoke's watcher has
-- sent it back and the echo has arrived, both clipboards hold the text from then on, whatever the
-- watchers poll and whatever frames arrive, until something else is copied.
pub answered_copy :
    (peer : NodeId) (tx : ℕ) (n : Link) (b : String) (now later : ℕ) (work : List Step)
    → IsIdle peer tx n
    → IsFresh b n
    → All IsWork work
    → let m =
        run peer tx
          (Step.hub_copies b
            ∷ Step.hub_polls now
            ∷ Step.spoke_receives
            ∷ Step.spoke_polls later
            ∷ Step.hub_receives
            ∷ work)
          n in
      (m.desk.clipboard.content ≡ some b) × (m.spoke.clipboard.content ≡ some b)
unfolding run step arrive
answered_copy peer tx n b now later work idle v works =
    let n1 = answering tx b now later n in
    let says =
      ap (step peer tx Step.hub_receives) (spoke_relays peer tx b now later n idle v)
      ∙ ap (λ q. arrive peer (q ++ (answer b now later n ∷ [])) n1) idle.no_queue in
    let m = record n1 {
      desk = receive peer (answer b now later n) (drained tx b now n);
      queue = [];
    } in
    let rest =
      run-IsAtRest peer tx b b m work (answered-IsAtRest peer tx b now later n idle) works in
    subst
      (λ k.
        ((run peer tx work k).desk.clipboard.content ≡ some b)
        × ((run peer tx work k).spoke.clipboard.content ≡ some b))
      (sym says) (rest.hub_text, rest.spoke_text)
