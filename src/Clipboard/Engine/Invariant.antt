-- ===== src/Clipboard/Engine/Invariant.antt =====
-- The invariant of the engine: a bounded history whose versions rise up to the clock.
use borderless.Base.{
  ℕ, ◌+◌, ◌-◌, ◌^◌, ◌≤◌, ◌<◌, ◌≡◌, inr, List, [], ◌∷◌, ◌++◌, arith, length, drop, length-append,
  length-drop,
}
use borderless.Core.Clipboard.{ClipboardSnapshot, ClipItem}
use borderless.Core.Node.{NodeId}
use borderless.Clipboard.Engine.{
  Inner, Call, Decision, produces, observes, new, produce, observe_remote, push_history, step, run,
  ignore,
}
use borderless.Clipboard.Engine.Clock.{AllWithin, AllWithin-suc, step-lamport, lamport_bound}
use borderless.Clipboard.Engine.Echo.{Outcome, dropped, taken, observe_remote-Outcome, observe-echo}

-- The versions start at `lo` or above, rise strictly, and stay below `hi`.
abbrev pub Rising : ℕ → List ClipboardSnapshot → ℕ → Type 0
Rising lo [] hi = lo ≤ hi
Rising lo (s ∷ ss) hi = (lo ≤ s.version) × Rising (s.version + 1) ss hi

pub record IsValid (g : Inner) : Type 0 where
  pub positive : 1 ≤ g.history_limit
  pub bounded : length g.history ≤ g.history_limit
  pub rising : Rising 0 g.history (g.local_version + 1)

Rising-lower :
    (lo lo' hi : ℕ) (xs : List ClipboardSnapshot) → lo' ≤ lo → Rising lo xs hi → Rising lo' xs hi
Rising-lower lo lo' hi [] h r = omega arith
Rising-lower lo lo' hi (x ∷ xs) h r = (omega arith, r.1)

Rising-drop : (hi : ℕ) (xs : List ClipboardSnapshot) → Rising 0 xs hi → Rising 0 (drop 1 xs) hi
Rising-drop hi [] r = r
Rising-drop hi (x ∷ xs) r = Rising-lower (x.version + 1) 0 hi xs (omega arith) r.1

Rising-append :
    (lo hi : ℕ) (xs : List ClipboardSnapshot) (s : ClipboardSnapshot)
    → hi ≤ s.version
    → Rising lo xs hi
    → Rising lo (xs ++ (s ∷ [])) (s.version + 1)
Rising-append lo hi [] s h r = (omega arith, omega arith)
Rising-append lo hi (x ∷ xs) s h r = (r.0, Rising-append (x.version + 1) hi xs s h r.1)

-- Pushing a snapshot that is newer than the clock, with the clock moved to it.
push-IsValid :
    (g : Inner) (s : ClipboardSnapshot)
    → g.local_version < s.version
    → IsValid g
    → IsValid (push_history (record g { local_version = s.version }) s)
unfolding push_history
push-IsValid g s h v = record {
  positive = v.positive;
  bounded = ground (
    arith,
    v.bounded,
    v.positive,
    length-append g.history (s ∷ []),
    length-append (drop 1 g.history) (s ∷ []),
    length-drop 1 g.history,
  );
  rising = ground (
    arith,
    Rising-append 0 (g.local_version + 1) g.history s (omega arith) v.rising,
    Rising-append 0 (g.local_version + 1) (drop 1 g.history) s (omega arith)
        (Rising-drop (g.local_version + 1) g.history v.rising),
  );
}

pub new-IsValid : (self : NodeId) (history_limit : ℕ) → IsValid (new self history_limit)
unfolding new
new-IsValid self history_limit = record {
  positive = omega arith;
  bounded = omega arith;
  rising = omega arith;
}

produce-IsValid :
    (g : Inner) (item : ClipItem) (now : ℕ)
    → g.local_version + 1 < 2 ^ 64
    → IsValid g
    → IsValid (produce g item now).0
unfolding produce
produce-IsValid g item now room v = push-IsValid g _ (omega arith) v

observe-IsValid :
    (g : Inner) (snap : ClipboardSnapshot) (r : Inner × Decision)
    → IsValid g
    → Outcome g snap r
    → IsValid r.0
observe-IsValid g snap r v (dropped _ e) = rw e v
observe-IsValid g snap r v (taken _ newer _ state) = rw state (push-IsValid g snap newer v)

pub step-IsValid :
    (g : Inner) (c : Call) → g.local_version + 1 < 2 ^ 64 → IsValid g → IsValid (step g c)
unfolding step
step-IsValid g (produces item now) room v = produce-IsValid g item now room v
step-IsValid g (observes snap) room v =
    observe-IsValid g snap (observe_remote g snap) v (observe_remote-Outcome g snap)

-- Every call keeps the invariant, so it holds after any calls that leave the clock room.
pub run-IsValid :
    (b : ℕ) (g : Inner) (cs : List Call)
    → g.local_version ≤ b
    → AllWithin b cs
    → b + length cs < 2 ^ 64
    → IsValid g
    → IsValid (run g cs)
unfolding run
run-IsValid b g [] h w room v = v
run-IsValid b g (c ∷ cs) h w room v =
    run-IsValid (b + 1) (step g c) cs
      (omega (arith, step-lamport g c, lamport_bound g.self_id g.local_version b c))
      (AllWithin-suc b cs w.1) (omega arith) (step-IsValid g c (omega arith) v)

-- A clock at its last value wraps with the next local change, and from then on every node ignores
-- what this one copies: the new snapshot has version 0.
pub exhausted_clock :
    (g peer : Inner) (item : ClipItem) (now : ℕ)
    → g.local_version ≡ 2 ^ 64 - 1
    → ((produce g item now).0.local_version ≡ 0)
      × (observe_remote peer (produce g item now).1 ≡ (peer, ignore))
unfolding produce push_history
exhausted_clock g peer item now h = (omega arith, observe-echo peer _ (inr (omega arith)))
