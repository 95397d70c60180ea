-- ===== src/Clipboard/Engine.antt =====
-- `Engine` of crates/clipboard/src/lib.rs. The mutex makes each method one step, so a method takes
-- the locked `Inner` and returns the new one with its result. The clock `now_ms()` is an argument.
-- A `u64` version wraps (release profile); the history is oldest first.
pub mod Clock
pub mod History
pub mod Invariant
pub mod Echo
mod Tests
use Prim.Native.String.{String}
use borderless.Base.{
  ℕ, ◌+◌, ◌%◌, ◌^◌, max, ite, List, [], ◌∷◌, ◌++◌, ◌==◌, leb, if◌then◌else◌, length, drop, dec_le,
  ℕ_discrete,
}
use borderless.Clipboard.Lazy
use borderless.Core.Clipboard.{ImageFormat, ClipboardSnapshot, ClipItem}
use borderless.Core.Node.{Bytes, Blake3, NodeId, NodeId-discrete}

pub record Inner : Type 0 where
  pub self_id : NodeId
  pub local_version : ℕ
  pub history : List ClipboardSnapshot
  pub history_limit : ℕ

-- `Engine::new`
unfoldable pub new : NodeId → ℕ → Inner
new self_id history_limit = record {
  self_id = self_id;
  local_version = 0;
  history = [];
  history_limit = max history_limit 1;
}

-- `Inner::push_history`
unfoldable pub push_history : Inner → ClipboardSnapshot → Inner
push_history g snap =
    let kept = if length g.history == g.history_limit then drop 1 g.history else g.history in
    record g { history = kept ++ (snap ∷ []) }

-- The common tail of `produce_text` and `produce_image_snapshot`.
unfoldable pub produce : Inner → ClipItem → ℕ → Inner × ClipboardSnapshot
unfolding push_history
produce g item now =
    let version : ℕ = (g.local_version + 1) % 2 ^ 64 in
    let snap : ClipboardSnapshot = record {
      version = version;
      origin = g.self_id;
      created_unix_ms = now;
      items = item ∷ [];
    } in
    (push_history (record g { local_version = version }) snap, snap)

unfoldable pub produce_text : Inner → String → ℕ → Inner × ClipboardSnapshot
unfolding produce
produce_text g t now = produce g (ClipItem.text t) now

-- `produce_image_snapshot`, with the lazy store.
unfoldable pub produce_image_snapshot :
    Blake3 → Lazy.Inner → Inner → Bytes → ImageFormat → ℕ → Lazy.Inner × Inner × ClipboardSnapshot
unfolding produce
produce_image_snapshot b store g bytes format now =
    let (store, item) = Lazy.produce_image b store bytes format in
    let (g, snap) = produce g item now in (store, g, snap)

pub data Decision : Type 0 where
  apply : ClipboardSnapshot → Decision
  ignore : Decision

unfoldable pub observe_remote : Inner → ClipboardSnapshot → Inner × Decision
unfolding push_history
observe_remote g snap =
    ite (NodeId-discrete snap.origin g.self_id) (g, ignore)
      (ite (dec_le snap.version g.local_version) (g, ignore)
        (push_history (record g { local_version = snap.version }) snap, apply snap))

-- A call on the engine; the item of an image snapshot is made by `Lazy.produce_image`.
pub data Call : Type 0 where
  produces : ClipItem → (now : ℕ) → Call
  observes : ClipboardSnapshot → Call

unfoldable pub step : Inner → Call → Inner
step g (produces item now) = (produce g item now).0
step g (observes snap) = (observe_remote g snap).0

-- Any sequence of calls, from whatever threads they come.
unfoldable pub run : Inner → List Call → Inner
run g [] = g
run g (c ∷ cs) = run (step g c) cs
