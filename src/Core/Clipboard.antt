-- ===== src/Core/Clipboard.antt =====
-- crates/core/src/clipboard.rs: versioned clipboard snapshots and lazy payloads.
use Prim.Native.String.{String}
use borderless.Base.{ℕ, List}
use borderless.Core.Node.{Bytes, NodeId}

pub data ImageFormat : Type 0 where
  png jpeg rgba8 : ImageFormat

pub data LazyPayload : Type 0 where
  inline : Bytes → LazyPayload
  on_demand : (hash : Bytes) → (size : ℕ) → LazyPayload

pub data FileRef : Type 0 where
  origin_path : String → FileRef
  inline : (name : String) → (bytes : Bytes) → FileRef
  on_demand : (name : String) → (size : ℕ) → (hash : Bytes) → FileRef

pub data ClipItem : Type 0 where
  text : String → ClipItem
  html : (html plain_fallback : String) → ClipItem
  image : (format : ImageFormat) → (hash : Bytes) → (payload : LazyPayload) → ClipItem
  files : List FileRef → ClipItem

pub record ClipboardSnapshot : Type 0 where
  pub version : ℕ
  pub origin : NodeId
  pub created_unix_ms : ℕ
  pub items : List ClipItem
