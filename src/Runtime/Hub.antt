-- ===== src/Runtime/Hub.antt =====
-- The hub of crates/cli/src/runtime/server.rs: the map of writer channels and the tasks that use it,
-- one step per event. A channel is named by a number, and what was sent on it is kept in order; the
-- sends to a channel whose writer task has ended do nothing. The local clipboard is the list of what
-- `handle_remote_clipboard` of common.rs applied to it.
pub mod Channels
pub mod FanOut
pub mod Session
pub mod Desk
mod Tests
use Prim.Native.String.{String}
use borderless.Base.{
  ℕ, suc, Bool, true, false, List, [], ◌∷◌, ◌++◌, Option, none, some, ite, ℕ_discrete,
}
use borderless.Base.Dict.{Dict, lookup, insert, remove}
use borderless.Core.Clipboard.{ClipboardSnapshot}
use borderless.Core.Input.{InputEvent}
use borderless.Core.Node.{Bytes, NodeId, NodeId-discrete}
use borderless.Core.Wire.{WireFrame, ControlFrame}
use borderless.Clipboard.Engine
use borderless.Clipboard.Lazy
use borderless.Runtime.Chunks.{chunk_fetch_response}

abbrev pub Channels : Type 0
Channels = Dict ℕ (List WireFrame)

pub record Hub : Type 0 where
  pub writers : Dict NodeId ℕ
  pub channels : Channels
  pub next_channel : ℕ
  pub clipboard : Engine.Inner
  pub lazy : Lazy.Inner
  pub applied : List ClipboardSnapshot

-- `tx.send(frame)`; an error is ignored by every caller.
unfoldable pub send : ℕ → WireFrame → Channels → Channels
send tx frame channels = elim (lookup ℕ_discrete tx channels) [
  | none ↦ channels
  | some sent ↦ insert ℕ_discrete tx (sent ++ (frame ∷ [])) channels
]

unfoldable pub send_all : ℕ → List WireFrame → Channels → Channels
unfolding send
send_all tx [] channels = channels
send_all tx (frame ∷ frames) channels = send_all tx frames (send tx frame channels)

-- `Some(*peer_id) == exclude`
unfoldable pub is_excluded : Option NodeId → NodeId → Bool
is_excluded none peer = false
is_excluded (some x) peer = ite (NodeId-discrete x peer) true false

unfoldable pub broadcast_to_all : Dict NodeId ℕ → WireFrame → Option NodeId → Channels → Channels
unfolding send is_excluded
broadcast_to_all [] frame exclude channels = channels
broadcast_to_all ((peer, tx) ∷ writers) frame exclude channels =
    broadcast_to_all writers frame exclude
      (elim (is_excluded exclude peer) [ true ↦ channels | false ↦ send tx frame channels ])

-- The start of `spawn_spoke_session`: a new channel, which replaces the one that the map had.
unfoldable pub start_session : NodeId → Hub → Hub
start_session peer h = record h {
  writers = insert NodeId-discrete peer h.next_channel h.writers;
  channels = insert ℕ_discrete h.next_channel [] h.channels;
  next_channel = suc h.next_channel;
}

-- The writer task of a channel ends when a send on the connection fails.
unfoldable pub end_writer : ℕ → Hub → Hub
end_writer tx h = record h { channels = remove ℕ_discrete tx h.channels }

-- The end of the reader task of a peer's session.
unfoldable pub end_session : NodeId → Hub → Hub
end_session peer h = record h { writers = remove NodeId-discrete peer h.writers }

-- `handle_remote_clipboard`
unfoldable pub handle_remote_clipboard : ClipboardSnapshot → Hub → Hub × Option ClipboardSnapshot
handle_remote_clipboard snap h =
    let (clipboard, decision) = Engine.observe_remote h.clipboard snap in
    elim decision [
      | Engine.apply snap ↦
          (record h { clipboard = clipboard; applied = h.applied ++ (snap ∷ []) }, some snap)
      | Engine.ignore ↦ (record h { clipboard = clipboard }, none)
    ]

-- The reply to a `FetchRequest`.
unfoldable pub fetch_reply : Lazy.Inner → Bytes → List WireFrame
fetch_reply lazy hash = elim (Lazy.get lazy hash) [
  | some bytes ↦ chunk_fetch_response hash bytes
  | none ↦ WireFrame.fetch_miss hash ∷ []
]

-- The fan-out, when the snapshot was applied.
unfoldable pub forward : NodeId → ClipboardSnapshot → Hub × Option ClipboardSnapshot → Hub
unfolding broadcast_to_all
forward peer snap (h, none) = h
forward peer snap (h, some _) = record h {
  channels = broadcast_to_all h.writers (WireFrame.clipboard snap) (some peer) h.channels;
}

unfoldable pub on_clipboard : NodeId → ClipboardSnapshot → Hub → Hub
unfolding handle_remote_clipboard forward
on_clipboard peer snap h = forward peer snap (handle_remote_clipboard snap h)

unfoldable pub on_fetch_request : NodeId → Bytes → Hub → Hub
unfolding fetch_reply send_all
on_fetch_request peer hash h = elim (lookup NodeId-discrete peer h.writers) [
  | none ↦ h
  | some tx ↦ record h { channels = send_all tx (fetch_reply h.lazy hash) h.channels }
]

-- One turn of the reader loop of a peer's session.
unfoldable pub on_frame : NodeId → WireFrame → Hub → Hub
unfolding on_clipboard on_fetch_request
on_frame peer (WireFrame.clipboard snap) h = on_clipboard peer snap h
on_frame peer (WireFrame.input ev) h = h
on_frame peer (WireFrame.fetch_request hash) h = on_fetch_request peer hash h
on_frame peer (WireFrame.fetch_response hash i total bytes) h = h
on_frame peer (WireFrame.fetch_miss hash) h = h
on_frame peer (WireFrame.control c) h = h

-- A change of the local clipboard, through `watch_to_frame`.
unfoldable pub on_local_clipboard : String → ℕ → Hub → Hub
unfolding broadcast_to_all
on_local_clipboard text now h =
    let (clipboard, snap) = Engine.produce_text h.clipboard text now in
    record h {
      clipboard = clipboard;
      channels = broadcast_to_all h.writers (WireFrame.clipboard snap) none h.channels;
    }

-- A captured input event.
unfoldable pub on_local_input : InputEvent → Hub → Hub
unfolding broadcast_to_all
on_local_input ev h = record h {
  channels = broadcast_to_all h.writers (WireFrame.input ev) none h.channels;
}
