-- ===== src/Runtime/Link/Tests.antt =====
-- A hub and its one spoke, with the same clock.
use Prim.Native.String.{String}
use borderless.Base.{
  ℕ, ◌≡◌, ◌≢◌, refl, sym, ap, false, none, some, List, [], ◌∷◌, ℕ_discrete, All, arith,
}
use borderless.Base.Dict.{lookup}
use borderless.Core.Node.{NodeId, NodeId-discrete}
use borderless.Pal.Clipboard.{changed}
use borderless.Runtime.Hub.Channels.{NotIn, IsDistinct}
use borderless.Runtime.Link.{Link, Step, run}
use borderless.Runtime.Link.Rest.{IsWork}
use borderless.Runtime.Link.Crossing.{IsIdle}
use borderless.Runtime.Link.Relay.{IsFresh}
use borderless.Runtime.Link.Answered
use borderless.Runtime.Link.Answered.{answered_copy}
use borderless.Runtime.Link.Settled.{uncrossed_copy}

abbrev node : ℕ → NodeId
node n = record { bytes = n ∷ [] }

abbrev link : Link
link = record {
  desk = record {
    hub = record {
      writers = (node 1, 0) ∷ [];
      channels = (0, []) ∷ [];
      next_channel = 1;
      clipboard = record { self_id = node 0; local_version = 3; history = []; history_limit = 4 };
      lazy = record { by_hash = []; order = []; total_bytes = 0; cap = 9 };
      applied = [];
    };
    clipboard = record { content = none; fails = false };
    last = none;
  };
  spoke = record {
    engine = record { self_id = node 1; local_version = 3; history = []; history_limit = 4 };
    clipboard = record { content = none; fails = false };
    last = none;
  };
  queue = [];
}

abbrev work : List Step
work =
    Step.hub_receives
    ∷ Step.spoke_receives
    ∷ Step.hub_polls 7
    ∷ Step.spoke_polls 8
    ∷ Step.spoke_receives
    ∷ Step.hub_receives
    ∷ []

work-IsWork : All IsWork work
work-IsWork = (tt, (tt, (tt, (tt, (tt, (tt, tt))))))

link-IsIdle : IsIdle (node 1) 0 link
unfolding IsDistinct NotIn lookup NodeId-discrete ℕ_discrete
link-IsIdle = record { distinct = (tt, tt); connected = refl; no_queue = refl; no_frames = refl }

abbrev first_byte : List ℕ → ℕ
first_byte [] = 0
first_byte (n ∷ ns) = n

other : node 1 ≢ node 0
other e = let first = ap (λ (n : NodeId). first_byte n.bytes) e in omega arith

new_text : (t : String) → changed none (some t) ≡ some t
unfolding changed
new_text t = refl

link-IsFresh : IsFresh "a" link
link-IsFresh = record {
  apart = other;
  newer = omega arith;
  works = refl;
  hub_new = new_text "a";
  spoke_new = new_text "a";
}

uncrossed_copy_example :
    let m =
      run
        (node 1)
        0
        (Step.spoke_copies "a"
          ∷ Step.spoke_polls 5
          ∷ Step.hub_receives
          ∷ Step.hub_polls 6
          ∷ Step.spoke_receives
          ∷ work)
        link in
    (m.desk.clipboard.content ≡ some "a") × (m.spoke.clipboard.content ≡ some "a")
uncrossed_copy_example =
    uncrossed_copy (node 1) 0 link "a" 5 6 work link-IsIdle link-IsFresh work-IsWork

another : node 0 ≢ node 1
another e = other (sym e)

link-IsFresh_hub : Answered.IsFresh "a" link
link-IsFresh_hub = record {
  apart = another;
  newer = omega arith;
  works = refl;
  hub_new = new_text "a";
  spoke_new = new_text "a";
}

answered_copy_example :
    let m =
      run
        (node 1)
        0
        (Step.hub_copies "a"
          ∷ Step.hub_polls 5
          ∷ Step.spoke_receives
          ∷ Step.spoke_polls 6
          ∷ Step.hub_receives
          ∷ work)
        link in
    (m.desk.clipboard.content ≡ some "a") × (m.spoke.clipboard.content ≡ some "a")
answered_copy_example =
    answered_copy (node 1) 0 link "a" 5 6 work link-IsIdle link-IsFresh_hub work-IsWork
