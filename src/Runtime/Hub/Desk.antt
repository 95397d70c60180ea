-- ===== src/Runtime/Hub/Desk.antt =====
-- A hub with the clipboard of its own desktop: what is applied is written there, as
-- `apply_clipboard_snapshot` of crates/cli/src/runtime/common.rs does, and the watcher polls it.
use Prim.Native.String.{String}
use mathlib.Core.Path.{subst}
use borderless.Base.{
  ℕ, ◌+◌, ◌%◌, ◌^◌, ◌<◌, ◌≢◌, ◌≡◌, refl, sym, ap, ◌∙◌, false, [], ◌∷◌, Option, none, some,
  ℕ_discrete, arith,
}
use borderless.Base.Dict.{lookup}
use borderless.Core.Clipboard.{ClipItem, ClipboardSnapshot}
use borderless.Core.Node.{NodeId, NodeId-discrete}
use borderless.Core.Wire.{WireFrame}
use borderless.Clipboard.Engine
use borderless.Clipboard.Engine.{Decision, apply, ignore, observe_remote, produce_text}
use borderless.Pal.Clipboard.{Clipboard, write, set_text, poll, changed, text_of, changed-same}
use borderless.Runtime.Hub.{Hub, on_frame, on_clipboard, on_local_clipboard, is_excluded}
use borderless.Runtime.Hub.FanOut.{decided, on_clipboard-clipboard}
use borderless.Runtime.Hub.Channels.{appended, IsDistinct, lookup-broadcast_to_all}

pub record Desk : Type 0 where
  pub hub : Hub
  pub clipboard : Clipboard
  pub last : Option String

-- What is written of a decision. A failing write is only logged.
unfoldable pub written : Decision → Clipboard → Clipboard
written (apply snap) c = (write snap c).0
written ignore c = c

-- A clipboard frame of a spoke.
unfoldable pub receive : NodeId → ClipboardSnapshot → Desk → Desk
unfolding written
receive peer snap d = record d {
  hub = on_frame peer (WireFrame.clipboard snap) d.hub;
  clipboard = written (observe_remote d.hub.clipboard snap).1 d.clipboard;
}

-- What the watcher sends goes through `watch_to_frame` to every spoke.
unfoldable pub on_poll : ℕ → Option String × Option String → Desk → Desk
unfolding on_local_clipboard
on_poll now (last, none) d = record d { last = last }
on_poll now (last, some t) d = record d { last = last; hub = on_local_clipboard t now d.hub }

unfoldable pub tick : ℕ → Desk → Desk
unfolding poll on_poll
tick now d = on_poll now (poll d.last d.clipboard) d

pub observed :
    (g : Engine.Inner) (snap : ClipboardSnapshot)
    → snap.origin ≢ g.self_id
    → g.local_version < snap.version
    → (observe_remote g snap).1 ≡ apply snap
      × ((observe_remote g snap).0.self_id ≡ g.self_id)
      × ((observe_remote g snap).0.local_version ≡ snap.version)
unfolding observe_remote
observed g snap other newer = (ground arith, ground arith, ground arith)

-- The snapshot that the watcher's report of a text becomes.
abbrev pub echo_of : ClipboardSnapshot → NodeId → String → ℕ → ClipboardSnapshot
echo_of snap self_id t now = record {
  version = (snap.version + 1) % 2 ^ 64;
  origin = self_id;
  created_unix_ms = now;
  items = ClipItem.text t ∷ [];
}

pub received_clipboard :
    (peer : NodeId) (snap : ClipboardSnapshot) (d : Desk) (t : String)
    → (observe_remote d.hub.clipboard snap).1 ≡ apply snap
    → text_of snap.items ≡ some t
    → d.clipboard.fails ≡ false
    → (receive peer snap d).clipboard ≡ record d.clipboard { content = some t }
unfolding receive written write set_text
received_clipboard peer snap d t o items works = rw (o, written) (ground arith)

pub polled :
    (last : Option String) (c : Clipboard) (t : String)
    → changed last (some t) ≡ some t
    → poll last (record c { content = some t }) ≡ (some t, some t)
unfolding poll
polled last c t new = rw (new, poll) refl

-- What the tick after a snapshot does.
pub ticked :
    (peer : NodeId) (snap : ClipboardSnapshot) (d : Desk) (t : String) (now : ℕ)
    → (observe_remote d.hub.clipboard snap).1 ≡ apply snap
    → text_of snap.items ≡ some t
    → d.clipboard.fails ≡ false
    → changed d.last (some t) ≡ some t
    → tick now (receive peer snap d) ≡ on_poll now (some t, some t) (receive peer snap d)
unfolding tick receive
ticked peer snap d t now o items works new =
    ap (λ p. on_poll now p (receive peer snap d))
      (ap (poll d.last) (received_clipboard peer snap d t o items works)
        ∙ polled d.last d.clipboard t new)

pub echoed :
    (q : NodeId) (tx : ℕ) (h : Hub) (t : String) (now : ℕ)
    → IsDistinct h.writers
    → lookup NodeId-discrete q h.writers ≡ some tx
    → lookup ℕ_discrete tx (on_local_clipboard t now h).channels
      ≡ appended
          (WireFrame.clipboard (produce_text h.clipboard t now).1 ∷ [])
          (lookup ℕ_discrete tx h.channels)
unfolding on_local_clipboard is_excluded
echoed q tx h t now distinct found =
    lookup-broadcast_to_all q tx h.writers (WireFrame.clipboard (produce_text h.clipboard t now).1)
      none h.channels distinct found

pub produced :
    (g : Engine.Inner) (snap : ClipboardSnapshot) (t : String) (now : ℕ) (id : NodeId)
    → g.self_id ≡ id
    → g.local_version ≡ snap.version
    → (produce_text g t now).1 ≡ echo_of snap id t now
unfolding produce_text
produced g snap t now id same version = rw (sym same, sym version) refl

seen : (t : String) (c : Clipboard) → poll (some t) (record c { content = some t }) ≡ (some t, none)
unfolding poll
seen t c = rw (changed-same t, poll) refl

-- What is applied from a spoke comes back to all of them. A text that a spoke has copied, that the hub
-- applies, and that its watcher has not reported last, is taken by the watcher for a change of the
-- hub's own: with the next poll every connected spoke, the sender included, is sent the text again,
-- as a new snapshot of the hub with the next version.
pub tick-echoes :
    (peer q : NodeId) (tx : ℕ) (snap : ClipboardSnapshot) (d : Desk) (t : String) (now : ℕ)
    → IsDistinct d.hub.writers
    → lookup NodeId-discrete q d.hub.writers ≡ some tx
    → snap.origin ≢ d.hub.clipboard.self_id
    → d.hub.clipboard.local_version < snap.version
    → text_of snap.items ≡ some t
    → d.clipboard.fails ≡ false
    → changed d.last (some t) ≡ some t
    → let r = receive peer snap d in
      lookup ℕ_discrete tx (tick now r).hub.channels
      ≡ appended
          (WireFrame.clipboard (echo_of snap d.hub.clipboard.self_id t now) ∷ [])
          (lookup ℕ_discrete tx r.hub.channels)
unfolding receive on_frame on_poll
tick-echoes peer q tx snap d t now distinct found other newer items works new =
    let (o, id, version) = observed d.hub.clipboard snap other newer in
    let h = on_clipboard peer snap d.hub in
    let same : h.writers ≡ d.hub.writers =
      ap (λ (x : Hub). x.writers) (decided peer snap d.hub (apply snap) o) in
    let engine = on_clipboard-clipboard peer snap d.hub (apply snap) o in
    ap (λ (x : Desk). lookup ℕ_discrete tx x.hub.channels)
      (ticked peer snap d t now o items works new)
    ∙ echoed q tx h t now (subst IsDistinct (sym same) distinct)
        (ap (lookup NodeId-discrete q) same ∙ found)
    ∙ ap (λ s. appended (WireFrame.clipboard s ∷ []) (lookup ℕ_discrete tx h.channels))
        (produced h.clipboard snap t now d.hub.clipboard.self_id
          (ap (λ (g : Engine.Inner). g.self_id) engine ∙ id)
          (ap (λ (g : Engine.Inner). g.local_version) engine ∙ version))

-- The echo is the end of it: the hub's watcher has seen the text by then, and a poll before the next
-- change does nothing.
pub tick-settles :
    (peer : NodeId) (snap : ClipboardSnapshot) (d : Desk) (t : String) (now later : ℕ)
    → snap.origin ≢ d.hub.clipboard.self_id
    → d.hub.clipboard.local_version < snap.version
    → text_of snap.items ≡ some t
    → d.clipboard.fails ≡ false
    → changed d.last (some t) ≡ some t
    → let r = tick now (receive peer snap d) in tick later r ≡ r
unfolding on_poll tick
tick-settles peer snap d t now later other newer items works new =
    let (o, _, _) = observed d.hub.clipboard snap other newer in
    let e = ticked peer snap d t now o items works new in
    let c = received_clipboard peer snap d t o items works in
    subst (λ x. tick later x ≡ x) (sym e)
      (ap
          (λ k.
            on_poll later (poll (some t) k) (on_poll now (some t, some t) (receive peer snap d)))
          c
        ∙ ap (λ p. on_poll later p (on_poll now (some t, some t) (receive peer snap d)))
            (seen t d.clipboard))
