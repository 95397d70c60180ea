-- ===== src/Runtime/Hub/Session/Stale.antt =====
-- A session that is replaced, and the end of its reader task after that.
use Prim.Native.String.{String}
use borderless.Base.{ℕ, ◌<◌, List, [], ◌∷◌, Option, none, some, ℕ_discrete}
use borderless.Base.Dict.{Dict, lookup}
use borderless.Core.Input.{InputEvent}
use borderless.Core.Node.{NodeId}
use borderless.Core.Wire.{WireFrame}
use borderless.Runtime.Hub.{
  Hub, Channels, start_session, end_session, end_writer, on_frame, on_local_clipboard,
  on_local_input,
}
use borderless.Runtime.Hub.Channels.{NotIn}

-- What may happen at a hub.
pub data HubStep : Type 0 where
  receives : (peer : NodeId) → (frame : WireFrame) → HubStep
  copies : (text : String) → (now : ℕ) → HubStep
  captures : (event : InputEvent) → HubStep
  connects : (peer : NodeId) → HubStep
  leaves : (peer : NodeId) → HubStep
  writer_ends : (channel : ℕ) → HubStep

unfoldable pub step : HubStep → Hub → Hub
unfolding on_frame on_local_clipboard on_local_input start_session end_session end_writer
step (receives peer frame) h = on_frame peer frame h
step (copies text now) h = on_local_clipboard text now h
step (captures event) h = on_local_input event h
step (connects peer) h = start_session peer h
step (leaves peer) h = end_session peer h
step (writer_ends channel) h = end_writer channel h

unfoldable pub run : List HubStep → Hub → Hub
unfolding step
run [] h = h
run (s ∷ steps) h = run steps (step s h)

-- Nothing is on the channel, be it open or ended.
abbrev pub IsSilent : Option (List WireFrame) → Type 0
IsSilent none = Unit {0}
IsSilent (some []) = Unit {0}
IsSilent (some (frame ∷ frames)) = ⊥

-- A channel that was made, is in no entry of the map, and has nothing on it.
pub record IsCutOff (tx : ℕ) (h : Hub) : Type 0 where
  pub made : tx < h.next_channel
  pub unlisted : NotIn tx h.writers
  pub silent : IsSilent (lookup ℕ_discrete tx h.channels)
