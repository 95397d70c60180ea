-- ===== src/Clipboard/Engine/Tests.antt =====
-- Engines over short histories.
use borderless.Base.{ℕ, ◌+◌, ◌-◌, ◌^◌, max, ◌≡◌, refl, List, [], ◌∷◌, arith}
use borderless.Core.Clipboard.{ClipboardSnapshot, ClipItem}
use borderless.Core.Node.{NodeId}
use borderless.Clipboard.Engine.{
  Inner, Decision, Call, new, produce, produce_text, observe_remote, run, produces, observes,
  ignore, apply,
}
use borderless.Clipboard.Engine.Echo.{observed_again, produced_returns}
use borderless.Clipboard.Engine.History.{last_n, log, history-run}
use borderless.Clipboard.Engine.Invariant.{IsValid, new-IsValid, run-IsValid}

abbrev node : ℕ → NodeId
node n = record { bytes = n ∷ [] }

abbrev start : Inner
start = new (node 0) 2

-- A snapshot of another node.
abbrev snap : ℕ → ClipboardSnapshot
snap version = record { version = version; origin = node 1; created_unix_ms = 0; items = [] }

abbrev calls : List Call
calls = observes (snap 4) ∷ produces (ClipItem.text "a") 9 ∷ observes (snap 2) ∷ []

clock : (run start calls).local_version ≡ 5
unfolding run borderless.Clipboard.Engine.step observe_remote borderless.Core.Node.NodeId-discrete
    produce new borderless.Base.ℕ_discrete borderless.Base.dec_le
clock = refl

ignored : observe_remote (run start calls) (snap 5) ≡ (run start calls, ignore)
unfolding observe_remote borderless.Core.Node.NodeId-discrete run borderless.Clipboard.Engine.step
    produce new borderless.Base.ℕ_discrete borderless.Base.dec_le
ignored = refl

observed_again_example :
    let g' = run (observe_remote start (snap 4)).0 calls in
    observe_remote g' (snap 4) ≡ (g', ignore)
unfolding new
observed_again_example =
    observed_again 4 start calls (snap 4) (omega arith) (omega arith)
      (omega arith, (tt, (omega arith, tt))) (omega arith)

produced_returns_example :
    let (g', made) = produce start (ClipItem.text "a") 7 in
    observe_remote (run g' calls) made ≡ (run g' calls, ignore)
produced_returns_example = produced_returns start (ClipItem.text "a") 7 calls

history-run_example :
    (run (new (node 0) 2) calls).history ≡ last_n (max 2 1) (log (new (node 0) 2) calls)
history-run_example = history-run (node 0) 2 calls

run-IsValid_example : IsValid (run start calls)
unfolding new
run-IsValid_example =
    run-IsValid 4 start calls (omega arith) (omega arith, (tt, (omega arith, tt))) (omega arith)
      (new-IsValid (node 0) 2)
