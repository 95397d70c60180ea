-- ===== src/Runtime/Link/Settled.antt =====
-- A copy that nothing crosses.
use Prim.Native.String.{String}
use mathlib.Core.Path.{subst}
use borderless.Base.{ℕ, ◌≡◌, refl, sym, ap, ◌∙◌, List, [], ◌∷◌, some, ℕ_discrete, All, arith}
use borderless.Base.Dict.{lookup-insert_self}
use borderless.Core.Node.{NodeId}
use borderless.Core.Wire.{WireFrame}
use borderless.Clipboard.Engine.{Inner, apply, produce_text}
use borderless.Clipboard.Engine.Echo.{dropped, taken, observe_remote-Outcome}
use borderless.Pal.Clipboard.{Clipboard, text_of}
use borderless.Runtime.Hub.Desk
use borderless.Runtime.Hub.Desk.{written, observed}
use borderless.Runtime.Link.{Link, Side, Step, on_clipboard, on_frame, deliver, step, run}
use borderless.Runtime.Link.Rest.{IsAtRest, IsOldChannel, IsWork, run-IsAtRest}
use borderless.Runtime.Link.Said.{spoke_said}
use borderless.Runtime.Link.Crossing.{IsIdle}
use borderless.Runtime.Link.Relay.{
  IsFresh, got, echo, relayed, hub_relays, got-text, relayed-channel,
}

-- Writing what is there changes nothing, whether or not it fails.
pub written_again :
    (g : Inner) (b : String) (later : ℕ) (c : Clipboard)
    → (written (apply (produce_text g b later).1) (record c { content = some b })).content ≡ some b
unfolding written borderless.Pal.Clipboard.write borderless.Pal.Clipboard.set_text text_of
    produce_text
written_again g b later c = ground arith

-- The spoke once it has the echo.
abbrev echoed_spoke : NodeId → String → ℕ → ℕ → Link → Side
echoed_spoke peer b now later n = on_clipboard (echo peer b now later n) (spoke_said b now n).spoke

echoed_spoke-text :
    (peer : NodeId) (b : String) (now later : ℕ) (n : Link)
    → (echoed_spoke peer b now later n).clipboard.content ≡ some b
unfolding on_clipboard written
echoed_spoke-text peer b now later n =
    let g = (produce_text n.spoke.engine b now).0 in
    let c = record n.spoke.clipboard { content = some b } in
    let h = (got peer b now n).hub.clipboard in
    elim (observe_remote-Outcome g (echo peer b now later n)) [
      | dropped _ e ↦ ap (λ r. (written r.1 c).content) e
      | taken _ _ e _ ↦
          ap (λ d. (written d c).content) e ∙ written_again h b later n.spoke.clipboard
    ]

settled-IsAtRest :
    (peer : NodeId) (tx : ℕ) (n : Link) (b : String) (now later : ℕ)
    → IsIdle peer tx n
    → IsFresh b n
    → IsAtRest tx b b (
        deliver tx
          (some (WireFrame.clipboard (echo peer b now later n) ∷ []))
          (relayed peer b now later n))
unfolding deliver Desk.on_poll on_frame on_clipboard
settled-IsAtRest peer tx n b now later idle v = record {
  hub_text = got-text peer b now n v;
  hub_last = refl;
  spoke_text = echoed_spoke-text peer b now later n;
  spoke_last = refl;
  hub_old = tt;
  spoke_old =
      subst (IsOldChannel (echoed_spoke peer b now later n).engine.local_version)
        (sym (lookup-insert_self ℕ_discrete tx [] (relayed peer b now later n).desk.hub.channels))
        tt;
}

-- A copy that nothing crosses arrives, and its echo ends with the spoke. On a session with nothing
-- under way the spoke copies a text that the hub can take: newer than the hub's clock, new to both
-- watchers, from another node, and written without an error. When the hub's watcher has sent it back
-- and the echo has arrived, both clipboards hold the text from then on, whatever the watchers poll
-- and whatever frames arrive, until something else is copied.
pub uncrossed_copy :
    (peer : NodeId) (tx : ℕ) (n : Link) (b : String) (now later : ℕ) (work : List Step)
    → IsIdle peer tx n
    → IsFresh b n
    → All IsWork work
    → let m =
        run peer tx
          (Step.spoke_copies b
            ∷ Step.spoke_polls now
            ∷ Step.hub_receives
            ∷ Step.hub_polls later
            ∷ Step.spoke_receives
            ∷ work)
          n in
      (m.desk.clipboard.content ≡ some b) × (m.spoke.clipboard.content ≡ some b)
unfolding run step
uncrossed_copy peer tx n b now later work idle v works =
    let n1 = relayed peer b now later n in
    let says =
      ap (step peer tx Step.spoke_receives) (hub_relays peer tx b now later n idle.no_queue v)
      ∙ ap (λ o. deliver tx o n1) (relayed-channel peer tx b now later n idle v) in
    let rest =
      run-IsAtRest peer tx b b
        (deliver tx (some (WireFrame.clipboard (echo peer b now later n) ∷ [])) n1) work
        (settled-IsAtRest peer tx n b now later idle v) works in
    subst
      (λ k.
        ((run peer tx work k).desk.clipboard.content ≡ some b)
        × ((run peer tx work k).spoke.clipboard.content ≡ some b))
      (sym says) (rest.hub_text, rest.spoke_text)
