-- ===== src/Pal/X11/Capture/Worker.antt =====
-- `X11Capture` of crates/pal-x11/src/capture.rs: the handle and the threads that it has spawned. A
-- thread waits for the next event, sends what comes of it, and looks at the shared stop flag before it
-- waits again. A sink is named by a number. That a thread could not connect at all is left out.
use borderless.Base.{
  ℕ, ◌≡◌, refl, Bool, true, false, List, [], ◌∷◌, ◌++◌, map, if◌then◌else◌, Result, ok, err,
}
use borderless.Core.Input.{InputEvent}
use borderless.Core.ModifierMask
use borderless.Core.ModifierMask.{ModifierMask}
use borderless.Pal.Traits.{PalError, CaptureMode}
use borderless.Pal.X11.Capture.{Keyboard, Event, dispatch_event}

pub record Worker : Type 0 where
  pub sink : ℕ
  pub modifiers : ModifierMask

-- `thread` says whether the handle holds a thread.
pub record X11Capture : Type 0 where
  pub mode : CaptureMode
  pub stop : Bool
  pub thread : Bool
  pub workers : List Worker

unfoldable pub new : X11Capture
new = record { mode = CaptureMode.off; stop = false; thread = false; workers = [] }

-- `start`, with whether the system can spawn a thread.
unfoldable pub start : Bool → ℕ → X11Capture → X11Capture × Result PalError (Unit {0})
start can_spawn sink c =
    if c.thread
    then (c, ok tt)
    else if can_spawn
    then (
      record c {
        stop = false;
        thread = true;
        workers = c.workers ++ (record { sink = sink; modifiers = ModifierMask.empty } ∷ []);
      },
      ok tt,
    )
    else (record c { stop = false }, err (PalError.backend "spawn capture thread"))

-- `stop`: the thread is detached, since it may be waiting.
unfoldable pub stop : X11Capture → X11Capture
stop c = record c { stop = true; thread = false }

unfoldable pub set_mode : CaptureMode → X11Capture → X11Capture
set_mode mode c = record c { mode = mode }

abbrev pub Sent : Type 0
Sent = List (ℕ × InputEvent)

abbrev pub to_sink : ℕ → List InputEvent → Sent
to_sink sink = map (λ e. (sink, e))

-- The event reaches every thread, each on a connection of its own.
unfoldable pub dispatch_all : Keyboard → ℕ → Event → List Worker → List Worker × Sent
unfolding dispatch_event
dispatch_all kb now ev [] = ([], [])
dispatch_all kb now ev (w ∷ ws) =
    let (m, sent) = dispatch_event kb now ev w.modifiers in
    let (ws', later) = dispatch_all kb now ev ws in
    (record w { modifiers = m } ∷ ws', to_sink w.sink sent ++ later)

-- One event, and the test of the flag that follows it.
unfoldable pub on_event : Keyboard → ℕ → Event → X11Capture → X11Capture × Sent
unfolding dispatch_all
on_event kb now ev c =
    let (workers, sent) = dispatch_all kb now ev c.workers in
    (record c { workers = if c.stop then [] else workers }, sent)

-- A capture that is stopped still sends what comes of the next event, and nothing after that.
pub stop-sends_once :
    (kb : Keyboard) (now later : ℕ) (ev next : Event) (c : X11Capture)
    → let after = on_event kb now ev (stop c) in
      (after.1 ≡ (on_event kb now ev c).1) × ((on_event kb later next after.0).1 ≡ [])
unfolding on_event dispatch_all stop
stop-sends_once kb now later ev next c = (refl, refl)
