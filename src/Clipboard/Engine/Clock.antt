-- ===== src/Clipboard/Engine/Clock.antt =====
-- The Lamport clock of the engine against its specification.
use borderless.Base.{
  ap₂, ◌∙◌, ℕ, ◌+◌, ◌^◌, ◌≤◌, ◌<◌, max, ◌≡◌, refl, ite, List, [], ◌∷◌, arith, length,
}
use borderless.Core.Node.{NodeId, NodeId-discrete}
use borderless.Clipboard.Engine.{
  Inner, Call, produces, observes, produce, observe_remote, push_history, step, run,
}

-- What a call does to a Lamport clock, with no machine word and no history: a local change ticks it,
-- a snapshot of another node moves it forward to the snapshot's version at least.
unfoldable pub lamport : NodeId → ℕ → Call → ℕ
lamport self v (produces item now) = v + 1
lamport self v (observes snap) = ite (NodeId-discrete snap.origin self) v (max v snap.version)

unfoldable pub lamport_run : NodeId → ℕ → List Call → ℕ
lamport_run self v [] = v
lamport_run self v (c ∷ cs) = lamport_run self (lamport self v c) cs

-- The versions that arrive are at most `b`.
abbrev pub Within : ℕ → Call → Type 0
Within b (produces item now) = Unit {0}
Within b (observes snap) = snap.version ≤ b

abbrev pub AllWithin : ℕ → List Call → Type 0
AllWithin b [] = Unit {0}
AllWithin b (c ∷ cs) = Within b c × AllWithin b cs

pub self_id-step : (g : Inner) (c : Call) → (step g c).self_id ≡ g.self_id
unfolding step produce observe_remote push_history
self_id-step g (produces item now) = refl
self_id-step g (observes snap) = ground arith

pub step-lamport :
    (g : Inner) (c : Call)
    → g.local_version + 1 < 2 ^ 64
    → (step g c).local_version ≡ lamport g.self_id g.local_version c
unfolding step produce observe_remote push_history lamport
step-lamport g (produces item now) h = omega arith
step-lamport g (observes snap) h = ground arith

pub lamport_bound :
    (self : NodeId) (v b : ℕ) (c : Call) → v ≤ b → Within b c → lamport self v c ≤ b + 1
unfolding lamport
lamport_bound self v b (produces item now) h w = omega arith
lamport_bound self v b (observes snap) h w = ground arith

pub AllWithin-suc : (b : ℕ) (cs : List Call) → AllWithin b cs → AllWithin (b + 1) cs
AllWithin-suc b [] h = tt
AllWithin-suc b (produces item now ∷ cs) h = (tt, AllWithin-suc b cs h.1)
AllWithin-suc b (observes snap ∷ cs) h = (omega arith, AllWithin-suc b cs h.1)

-- After any calls the engine's clock is the specified one, as long as it has room: at most `b` at
-- the start and in what arrives, and one tick for each call below 2 ^ 64.
pub run-lamport :
    (b : ℕ) (g : Inner) (cs : List Call)
    → g.local_version ≤ b
    → AllWithin b cs
    → b + length cs < 2 ^ 64
    → (run g cs).local_version ≡ lamport_run g.self_id g.local_version cs
unfolding run lamport_run
run-lamport b g [] h w room = refl
run-lamport b g (c ∷ cs) h w room =
    run-lamport (b + 1) (step g c) cs
      (omega (arith, step-lamport g c, lamport_bound g.self_id g.local_version b c))
      (AllWithin-suc b cs w.1) (omega arith)
    ∙ ap₂ (λ s v. lamport_run s v cs) (self_id-step g c) (step-lamport g c (omega arith))

lamport_grows : (self : NodeId) (v : ℕ) (c : Call) → v ≤ lamport self v c
unfolding lamport
lamport_grows self v (produces item now) = omega arith
lamport_grows self v (observes snap) = ground arith

pub lamport_run_grows : (self : NodeId) (v : ℕ) (cs : List Call) → v ≤ lamport_run self v cs
unfolding lamport_run
lamport_run_grows self v [] = omega arith
lamport_run_grows self v (c ∷ cs) =
    omega (arith, lamport_grows self v c, lamport_run_grows self (lamport self v c) cs)

pub self_id-run : (g : Inner) (cs : List Call) → (run g cs).self_id ≡ g.self_id
unfolding run
self_id-run g [] = refl
self_id-run g (c ∷ cs) = rw (self_id-run (step g c) cs) (self_id-step g c)
