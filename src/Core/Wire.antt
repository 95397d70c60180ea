-- ===== src/Core/Wire.antt =====
-- crates/core/src/wire.rs: the frames of a connection.
use Prim.Native.String.{String}
use borderless.Base.{ℕ}
use borderless.Core.Clipboard.{ClipboardSnapshot}
use borderless.Core.Input.{InputEvent}
use borderless.Core.Node.{Bytes, NodeId, ProtocolVersion}

pub data ControlFrame : Type 0 where
  hello : (node_id : NodeId) → (name : String) → (max_protocol : ProtocolVersion) → ControlFrame
  welcome : (node_id : NodeId) → (name : String) → (protocol : ProtocolVersion) → ControlFrame
  ping : (nonce : ℕ) → ControlFrame
  pong : (nonce : ℕ) → ControlFrame
  bye : (reason : String) → ControlFrame

pub data WireFrame : Type 0 where
  control : ControlFrame → WireFrame
  input : InputEvent → WireFrame
  clipboard : ClipboardSnapshot → WireFrame
  fetch_request : (hash : Bytes) → WireFrame
  fetch_response : (hash : Bytes) → (chunk_idx total : ℕ) → (bytes : Bytes) → WireFrame
  fetch_miss : (hash : Bytes) → WireFrame
