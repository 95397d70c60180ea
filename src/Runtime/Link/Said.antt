-- ===== src/Runtime/Link/Said.antt =====
-- What a copy puts under way once the watcher reports it.
use Prim.Native.String.{String}
use borderless.Base.{ℕ, ◌+◌, ◌%◌, ◌^◌, ◌≡◌, refl, ap, [], ◌∷◌, ◌++◌, some}
use borderless.Core.Node.{NodeId}
use borderless.Clipboard.Engine.{Inner, produce_text, push_history}
use borderless.Pal.Clipboard.{changed}
use borderless.Runtime.Hub.{on_local_clipboard}
use borderless.Runtime.Hub.Desk
use borderless.Runtime.Hub.Desk.{Desk, tick, polled}
use borderless.Runtime.Link.{Link, Step, copied, on_poll, tick_spoke, step}

-- The version that an engine gives to what it produces next.
abbrev pub next_version : Inner → ℕ
next_version g = (g.local_version + 1) % 2 ^ 64

pub produce_text-version :
    (g : Inner) (t : String) (now : ℕ)
    → ((produce_text g t now).1.version ≡ next_version g)
      × ((produce_text g t now).0.local_version ≡ next_version g)
unfolding produce_text push_history
produce_text-version g t now = (refl, refl)

-- The hub's desktop once a copy of its own is reported.
abbrev pub hub_said : String → ℕ → Desk → Desk
hub_said t now d = record {
  hub = on_local_clipboard t now d.hub;
  clipboard = record d.clipboard { content = some t };
  last = some t;
}

abbrev pub spoke_said : String → ℕ → Link → Link
spoke_said t now n = record n {
  spoke = record {
    engine = (produce_text n.spoke.engine t now).0;
    clipboard = record n.spoke.clipboard { content = some t };
    last = some t;
  };
  queue = n.queue ++ ((produce_text n.spoke.engine t now).1 ∷ []);
}

pub hub_says :
    (peer : NodeId) (tx : ℕ) (t : String) (now : ℕ) (n : Link)
    → changed n.desk.last (some t) ≡ some t
    → step peer tx (Step.hub_polls now) (step peer tx (Step.hub_copies t) n)
      ≡ record n { desk = hub_said t now n.desk }
unfolding step tick Desk.on_poll copied
hub_says peer tx t now n new =
    let d = record n.desk { clipboard = record n.desk.clipboard { content = some t } } in
    ap (λ p. record n { desk = Desk.on_poll now p d }) (polled n.desk.last n.desk.clipboard t new)

pub spoke_says :
    (peer : NodeId) (tx : ℕ) (t : String) (now : ℕ) (n : Link)
    → changed n.spoke.last (some t) ≡ some t
    → step peer tx (Step.spoke_polls now) (step peer tx (Step.spoke_copies t) n)
      ≡ spoke_said t now n
unfolding step tick_spoke on_poll copied
spoke_says peer tx t now n new =
    let s = record n.spoke { clipboard = record n.spoke.clipboard { content = some t } } in
    ap (λ p. on_poll now p (record n { spoke = s })) (polled n.spoke.last n.spoke.clipboard t new)
