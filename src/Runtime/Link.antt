-- ===== src/Runtime/Link.antt =====
-- A hub and a spoke that is connected to it, each with the clipboard of its own desktop: the two
-- watchers, and the frames under way. The spoke is `run_session` and the clipboard arm of
-- `reader_loop` in crates/cli/src/runtime/client.rs.
pub mod Rest
pub mod Said
pub mod Crossing
pub mod Relay
pub mod Overtaken
pub mod Settled
pub mod Answered
mod Tests
use Prim.Native.String.{String}
use borderless.Base.{ℕ, List, [], ◌∷◌, ◌++◌, Option, none, some, ℕ_discrete}
use borderless.Base.Dict.{lookup, insert}
use borderless.Core.Clipboard.{ClipboardSnapshot}
use borderless.Core.Node.{NodeId}
use borderless.Core.Wire.{WireFrame}
use borderless.Clipboard.Engine
use borderless.Pal.Clipboard.{Clipboard, poll}
use borderless.Runtime.Hub.{Hub}
use borderless.Runtime.Hub.Desk.{Desk, written, receive, tick}

-- The spoke's engine, its desktop clipboard, and what its watcher saw last.
pub record Side : Type 0 where
  pub engine : Engine.Inner
  pub clipboard : Clipboard
  pub last : Option String

-- The session: the spoke's queue of frames for the hub holds snapshots only.
pub record Link : Type 0 where
  pub desk : Desk
  pub spoke : Side
  pub queue : List ClipboardSnapshot

-- The arm of `reader_loop` for a clipboard frame; no other frame touches the clipboard.
unfoldable pub on_clipboard : ClipboardSnapshot → Side → Side
unfolding written
on_clipboard snap s =
    let (engine, decision) = Engine.observe_remote s.engine snap in
    record s { engine = engine; clipboard = written decision s.clipboard }

unfoldable pub on_frame : WireFrame → Side → Side
unfolding on_clipboard
on_frame (WireFrame.clipboard snap) s = on_clipboard snap s
on_frame (WireFrame.input ev) s = s
on_frame (WireFrame.fetch_request hash) s = s
on_frame (WireFrame.fetch_response hash i total bytes) s = s
on_frame (WireFrame.fetch_miss hash) s = s
on_frame (WireFrame.control c) s = s

-- What the watcher reports goes to the queue.
unfoldable pub on_poll : ℕ → Option String × Option String → Link → Link
on_poll now (last, none) n = record n { spoke = record n.spoke { last = last } }
on_poll now (last, some t) n =
    let (engine, snap) = Engine.produce_text n.spoke.engine t now in
    record n {
      spoke = record n.spoke { engine = engine; last = last };
      queue = n.queue ++ (snap ∷ []);
    }

unfoldable pub tick_spoke : ℕ → Link → Link
unfolding poll on_poll
tick_spoke now n = on_poll now (poll n.spoke.last n.spoke.clipboard) n

-- The next frame of the queue arrives at the hub.
unfoldable pub arrive : NodeId → List ClipboardSnapshot → Link → Link
arrive peer [] n = n
arrive peer (snap ∷ queue) n = record n { desk = receive peer snap n.desk; queue = queue }

-- The next frame of the spoke's channel arrives at the spoke.
unfoldable pub deliver : ℕ → Option (List WireFrame) → Link → Link
unfolding on_frame
deliver tx none n = n
deliver tx (some []) n = n
deliver tx (some (frame ∷ frames)) n = record n {
  desk = record n.desk {
    hub = record n.desk.hub { channels = insert ℕ_discrete tx frames n.desk.hub.channels };
  };
  spoke = on_frame frame n.spoke;
}

pub data Step : Type 0 where
  hub_copies : String → Step
  spoke_copies : String → Step
  hub_polls : (now : ℕ) → Step
  spoke_polls : (now : ℕ) → Step
  hub_receives spoke_receives : Step

-- A copy that a user makes.
unfoldable pub copied : String → Clipboard → Clipboard
copied t c = record c { content = some t }

unfoldable pub step : NodeId → ℕ → Step → Link → Link
unfolding copied tick tick_spoke arrive deliver
step peer tx (hub_copies t) n = record n {
  desk = record n.desk { clipboard = copied t n.desk.clipboard };
}
step peer tx (spoke_copies t) n = record n {
  spoke = record n.spoke { clipboard = copied t n.spoke.clipboard };
}
step peer tx (hub_polls now) n = record n { desk = tick now n.desk }
step peer tx (spoke_polls now) n = tick_spoke now n
step peer tx hub_receives n = arrive peer n.queue n
step peer tx spoke_receives n = deliver tx (lookup ℕ_discrete tx n.desk.hub.channels) n

unfoldable pub run : NodeId → ℕ → List Step → Link → Link
unfolding step
run peer tx [] n = n
run peer tx (s ∷ steps) n = run peer tx steps (step peer tx s n)
