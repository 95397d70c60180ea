-- ===== src/Runtime/Link/Crossing.antt =====
-- Copies that cross on the way.
use Prim.Native.String.{String}
use mathlib.Core.Path.{subst}
use borderless.Base.{ℕ, ◌≤◌, ◌≡◌, sym, List, [], ◌∷◌, ◌++◌, Option, some, ℕ_discrete, All, arith}
use borderless.Base.Dict.{lookup}
use borderless.Core.Clipboard.{ClipboardSnapshot}
use borderless.Core.Node.{NodeId, NodeId-discrete}
use borderless.Core.Wire.{WireFrame}
use borderless.Clipboard.Engine.{Inner, produce_text}
use borderless.Runtime.Hub.Channels.{IsDistinct, appended}
use borderless.Runtime.Link.{Link}
use borderless.Runtime.Link.Rest.{IsOldSnapshot, IsOldChannel}
use borderless.Runtime.Link.Said.{next_version, produce_text-version}

-- Nothing is under way on a session between the hub and the peer, whose channel is `tx`.
pub record IsIdle (peer : NodeId) (tx : ℕ) (n : Link) : Type 0 where
  pub distinct : IsDistinct n.desk.hub.writers
  pub connected : lookup NodeId-discrete peer n.desk.hub.writers ≡ some tx
  pub no_queue : n.queue ≡ []
  pub no_frames : lookup ℕ_discrete tx n.desk.hub.channels ≡ some []

-- A snapshot of a version alone under way to a node that has that version.
pub lone_snapshot :
    (g h : Inner) (t : String) (now : ℕ) (queue : List ClipboardSnapshot)
    → queue ≡ []
    → next_version g ≤ h.local_version
    → All (IsOldSnapshot h.local_version) (queue ++ ((produce_text g t now).1 ∷ []))
lone_snapshot g h t now queue e v =
    let (version, _) = produce_text-version g t now in
    subst (λ q. All (IsOldSnapshot h.local_version) (q ++ ((produce_text g t now).1 ∷ []))) (sym e)
      (omega (arith, version), tt)

pub lone_frame :
    (g : Inner) (t : String) (now v : ℕ) (o : Option (List WireFrame))
    → o ≡ some []
    → next_version g ≤ v
    → IsOldChannel v (appended (WireFrame.clipboard (produce_text g t now).1 ∷ []) o)
unfolding appended
lone_frame g t now v o e old =
    let (version, _) = produce_text-version g t now in
    subst (λ o. IsOldChannel v (appended (WireFrame.clipboard (produce_text g t now).1 ∷ []) o))
      (sym e) (omega (arith, version), tt)
