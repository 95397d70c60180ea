-- ===== src/Runtime/Hub/FanOut.antt =====
-- What reaches the spokes of a frame that one of them sends.
use borderless.Base.{
  ℕ, ◌≡◌, refl, ap, sym, ◌∙◌, List, [], ◌∷◌, ◌++◌, Option, none, some, ite, if_pos, ℕ_discrete,
  arith, append-nil, append_assoc,
}
use borderless.Base.Dict.{lookup}
use borderless.Core.Clipboard.{ClipboardSnapshot}
use borderless.Core.Node.{Bytes, NodeId, NodeId-discrete}
use borderless.Core.Wire.{WireFrame}
use borderless.Clipboard.Engine.{Decision, apply, ignore, observe_remote}
use borderless.Clipboard.Engine.Echo.{observed-IsEcho, observe-echo}
use borderless.Clipboard.Lazy
use borderless.Runtime.Chunks.Reassembly.{reassemble, reassemble-chunk_fetch_response}
use borderless.Runtime.Hub.{
  Channels, Hub, send, send_all, is_excluded, broadcast_to_all, handle_remote_clipboard,
  fetch_reply, forward, on_clipboard, on_fetch_request, on_frame,
}
use borderless.Runtime.Hub.Channels.{appended, IsDistinct, lookup-send, lookup-broadcast_to_all}

-- What a decision of the engine lets through.
abbrev pub forwarded : Decision → ClipboardSnapshot → List WireFrame
forwarded (apply s) snap = WireFrame.clipboard snap ∷ []
forwarded ignore snap = []

appended-nil : (o : Option (List WireFrame)) → appended [] o ≡ o
unfolding appended
appended-nil none = refl
appended-nil (some sent) = rw (append-nil sent)

handled :
    (snap : ClipboardSnapshot) (h : Hub) (d : Decision)
    → (observe_remote h.clipboard snap).1 ≡ d
    → handle_remote_clipboard snap h ≡ elim d [
      | apply s ↦ (
        record h {
          clipboard = (observe_remote h.clipboard snap).0;
          applied = h.applied ++ (s ∷ []);
        },
        some s,
      )
      | ignore ↦ (record h { clipboard = (observe_remote h.clipboard snap).0 }, none)
    ]
unfolding handle_remote_clipboard
handled snap h (apply s) e = rw (e, handle_remote_clipboard)
handled snap h ignore e = rw (e, handle_remote_clipboard)

-- `on_clipboard` by the decision.
pub decided :
    (peer : NodeId) (snap : ClipboardSnapshot) (h : Hub) (d : Decision)
    → (observe_remote h.clipboard snap).1 ≡ d
    → on_clipboard peer snap h ≡ elim d [
      | apply s ↦ record h {
        clipboard = (observe_remote h.clipboard snap).0;
        applied = h.applied ++ (s ∷ []);
        channels = broadcast_to_all h.writers (WireFrame.clipboard snap) (some peer) h.channels;
      }
      | ignore ↦ record h { clipboard = (observe_remote h.clipboard snap).0 }
    ]
unfolding on_clipboard forward
decided peer snap h (apply s) e = ap (forward peer snap) (handled snap h (apply s) e)
decided peer snap h ignore e = ap (forward peer snap) (handled snap h ignore e)

pub on_clipboard-clipboard :
    (peer : NodeId) (snap : ClipboardSnapshot) (h : Hub) (d : Decision)
    → (observe_remote h.clipboard snap).1 ≡ d
    → (on_clipboard peer snap h).clipboard ≡ (observe_remote h.clipboard snap).0
on_clipboard-clipboard peer snap h (apply s) e = rw (decided peer snap h (apply s) e)
on_clipboard-clipboard peer snap h ignore e = rw (decided peer snap h ignore e)

fans_out :
    (peer q : NodeId) (tx : ℕ) (snap : ClipboardSnapshot) (h : Hub) (d : Decision)
    → IsDistinct h.writers
    → lookup NodeId-discrete q h.writers ≡ some tx
    → (observe_remote h.clipboard snap).1 ≡ d
    → lookup ℕ_discrete tx (on_clipboard peer snap h).channels
      ≡ ite
          (NodeId-discrete peer q)
          (lookup ℕ_discrete tx h.channels)
          (appended (forwarded d snap) (lookup ℕ_discrete tx h.channels))
unfolding is_excluded
fans_out peer q tx snap h (apply s) n e o = rw (decided peer snap h (apply s) o) (
    lookup-broadcast_to_all q tx h.writers (WireFrame.clipboard snap) (some peer) h.channels n e
    ∙ ground arith)
fans_out peer q tx snap h ignore n e o =
    rw (decided peer snap h ignore o, appended-nil (lookup ℕ_discrete tx h.channels)) (ground arith)

-- A clipboard frame of a spoke goes once to every other connected spoke when the engine applies the
-- snapshot, and to none when the engine ignores it; it never goes back to its sender.
pub on_frame-fans_out :
    (peer q : NodeId) (tx : ℕ) (snap : ClipboardSnapshot) (h : Hub)
    → IsDistinct h.writers
    → lookup NodeId-discrete q h.writers ≡ some tx
    → lookup ℕ_discrete tx (on_frame peer (WireFrame.clipboard snap) h).channels
      ≡ ite (NodeId-discrete peer q) (lookup ℕ_discrete tx h.channels) (
          appended
            (forwarded (observe_remote h.clipboard snap).1 snap)
            (lookup ℕ_discrete tx h.channels))
unfolding on_frame
on_frame-fans_out peer q tx snap h d e =
    fans_out peer q tx snap h (observe_remote h.clipboard snap).1 d e refl

-- A snapshot that reaches the hub again, from whichever spoke, changes nothing: it is neither applied
-- nor forwarded a second time.
pub on_frame-forwards_once :
    (peer again : NodeId) (snap : ClipboardSnapshot) (h : Hub)
    → on_frame again (WireFrame.clipboard snap) (on_frame peer (WireFrame.clipboard snap) h)
      ≡ on_frame peer (WireFrame.clipboard snap) h
unfolding on_frame
on_frame-forwards_once peer again snap h =
    let h' = on_clipboard peer snap h in
    let g : h'.clipboard ≡ (observe_remote h.clipboard snap).0 =
      on_clipboard-clipboard peer snap h (observe_remote h.clipboard snap).1 refl in
    let o : observe_remote h'.clipboard snap ≡ (h'.clipboard, ignore) =
      rw g (
        observe-echo (observe_remote h.clipboard snap).0 snap (observed-IsEcho h.clipboard snap)) in
    decided again snap h' ignore (ap (λ x. x.1) o) ∙ ap (λ x. record h' { clipboard = x.0 }) o

appended-appended :
    (f : WireFrame) (fs : List WireFrame) (o : Option (List WireFrame))
    → appended fs (appended (f ∷ []) o) ≡ appended (f ∷ fs) o
unfolding appended
appended-appended f fs none = refl
appended-appended f fs (some sent) = rw (append_assoc sent (f ∷ []) fs)

lookup-send_all :
    (tx : ℕ) (frames : List WireFrame) (channels : Channels)
    → lookup ℕ_discrete tx (send_all tx frames channels)
      ≡ appended frames (lookup ℕ_discrete tx channels)
unfolding send_all
lookup-send_all tx [] channels = sym (appended-nil (lookup ℕ_discrete tx channels))
lookup-send_all tx (f ∷ fs) channels =
    lookup-send_all tx fs (send tx f channels)
    ∙ ap (appended fs) (lookup-send tx tx f channels ∙ if_pos (ℕ_discrete tx tx) refl _ _)
    ∙ appended-appended f fs (lookup ℕ_discrete tx channels)

-- What is asked of the frames of a reply, by what the store has for the hash.
unfoldable pub IsReply : Bytes → Option Bytes → List WireFrame → Type 0
IsReply hash none frames = frames ≡ WireFrame.fetch_miss hash ∷ []
IsReply hash (some bytes) frames = reassemble frames ≡ bytes

fetch_reply-IsReply :
    (lazy : Lazy.Inner) (hash : Bytes) (o : Option Bytes)
    → Lazy.get lazy hash ≡ o
    → IsReply hash o (fetch_reply lazy hash)
unfolding IsReply fetch_reply
fetch_reply-IsReply lazy hash none e = rw (e, fetch_reply)
fetch_reply-IsReply lazy hash (some bytes) e =
    rw (e, fetch_reply) (reassemble-chunk_fetch_response hash bytes)

-- The bytes that a spoke asks for come back on its own channel, after what was sent before, in frames
-- that put together are the stored bytes; for a hash that the store does not have, one miss comes back.
pub on_frame-serves_fetch :
    (peer : NodeId) (tx : ℕ) (hash : Bytes) (h : Hub)
    → lookup NodeId-discrete peer h.writers ≡ some tx
    → (frames : List WireFrame) × (lookup ℕ_discrete tx
          (on_frame peer (WireFrame.fetch_request hash) h).channels
        ≡ appended frames (lookup ℕ_discrete tx h.channels))
      × IsReply hash (Lazy.get h.lazy hash) frames
unfolding on_frame on_fetch_request
on_frame-serves_fetch peer tx hash h e = (
  fetch_reply h.lazy hash,
  rw (e, on_fetch_request) (lookup-send_all tx (fetch_reply h.lazy hash) h.channels),
  fetch_reply-IsReply h.lazy hash (Lazy.get h.lazy hash) refl,
)
