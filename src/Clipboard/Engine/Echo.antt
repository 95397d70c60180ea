-- ===== src/Clipboard/Engine/Echo.antt =====
-- Echoes: what the engine does with a snapshot, and with one that comes back.
use borderless.Base.{
  ℕ, ◌+◌, ◌^◌, ◌≤◌, ◌<◌, ◌≡◌, ◌≢◌, ◌⊎◌, inl, inr, sym, ◌∙◌, dec_le, List, arith, length,
}
use borderless.Core.Clipboard.{ClipboardSnapshot, ClipItem}
use borderless.Core.Node.{NodeId-discrete}
use borderless.Clipboard.Engine.{
  Inner, Decision, Call, produce, observe_remote, push_history, run, apply, ignore,
}
use borderless.Clipboard.Engine.Clock.{AllWithin, run-lamport, lamport_run_grows, self_id-run}

-- A snapshot of the node itself, or one that is not newer than the clock.
abbrev pub IsEcho : Inner → ClipboardSnapshot → Type 0
IsEcho g snap = (snap.origin ≡ g.self_id) ⊎ (snap.version ≤ g.local_version)

-- What `observe_remote` may do, by its decision.
pub data Outcome (g : Inner) (snap : ClipboardSnapshot) (r : Inner × Decision) : Type 0 where
  dropped : IsEcho g snap → r ≡ (g, ignore) → Outcome g snap r
  taken :
      snap.origin ≢ g.self_id
      → g.local_version < snap.version
      → r.1 ≡ apply snap
      → r.0 ≡ push_history (record g { local_version = snap.version }) snap
      → Outcome g snap r

pub observe_remote-Outcome :
    (g : Inner) (snap : ClipboardSnapshot) → Outcome g snap (observe_remote g snap)
unfolding observe_remote
observe_remote-Outcome g snap = elim (NodeId-discrete snap.origin g.self_id) [
  | yes own ↦ dropped (inl own) (ground arith)
  | no other ↦ elim (dec_le snap.version g.local_version) [
    | yes old ↦ dropped (inr old) (ground arith)
    | no new ↦ taken other (omega arith) (ground arith) (ground arith)
  ]
]

pub observe-echo :
    (g : Inner) (snap : ClipboardSnapshot) → IsEcho g snap → observe_remote g snap ≡ (g, ignore)
unfolding observe_remote
observe-echo g snap (inl own) = ground arith
observe-echo g snap (inr old) = ground arith

pub observed-IsEcho : (g : Inner) (snap : ClipboardSnapshot) → IsEcho (observe_remote g snap).0 snap
unfolding observe_remote push_history
observed-IsEcho g snap = elim (NodeId-discrete snap.origin g.self_id) [
  | yes own ↦ ground arith
  | no other ↦ ground arith
]

observe_remote-le :
    (b : ℕ) (g : Inner) (snap : ClipboardSnapshot)
    → g.local_version ≤ b
    → snap.version ≤ b
    → (observe_remote g snap).0.local_version ≤ b
unfolding observe_remote push_history
observe_remote-le b g snap h v = ground arith

run-IsEcho :
    (b : ℕ) (g : Inner) (cs : List Call) (snap : ClipboardSnapshot)
    → g.local_version ≤ b
    → AllWithin b cs
    → b + length cs < 2 ^ 64
    → IsEcho g snap
    → IsEcho (run g cs) snap
run-IsEcho b g cs snap h w room (inl own) = inl (own ∙ sym (self_id-run g cs))
run-IsEcho b g cs snap h w room (inr old) =
    inr (omega (arith, run-lamport b g cs h w room, lamport_run_grows g.self_id g.local_version cs))

-- A snapshot that was observed once, whether applied or not, is ignored and changes nothing when it
-- comes back after any further calls, as long as the 64-bit clock has room: the clock and the
-- versions that arrive are at most `b`, and `b` and one tick for each call stay below 2 ^ 64.
pub observed_again :
    (b : ℕ) (g : Inner) (cs : List Call) (snap : ClipboardSnapshot)
    → g.local_version ≤ b
    → snap.version ≤ b
    → AllWithin b cs
    → b + length cs < 2 ^ 64
    → let g' = run (observe_remote g snap).0 cs in observe_remote g' snap ≡ (g', ignore)
observed_again b g cs snap h v w room = observe-echo _ snap (
    run-IsEcho b (observe_remote g snap).0 cs snap (observe_remote-le b g snap h v) w room
      (observed-IsEcho g snap))

-- A node never takes its own snapshot, whatever calls come between.
pub produced_returns :
    (g : Inner) (item : ClipItem) (now : ℕ) (cs : List Call)
    → let (g', snap) = produce g item now in observe_remote (run g' cs) snap ≡ (run g' cs, ignore)
unfolding produce push_history
produced_returns g item now cs = observe-echo _ _ (inl (sym (self_id-run _ cs)))
