-- ===== src/Runtime/Link/Rest.antt =====
-- A link on which nothing new is under way.
use Prim.Native.String.{String}
use mathlib.Core.Path.{subst}
use borderless.Base.{
  ℕ, ◌≤◌, ◌≡◌, refl, sym, ap, ◌∙◌, inr, List, [], ◌∷◌, Option, none, some, ℕ_discrete, All, arith,
}
use borderless.Base.Dict.{lookup, insert, lookup-insert_self}
use borderless.Core.Clipboard.{ClipboardSnapshot}
use borderless.Core.Node.{NodeId}
use borderless.Core.Wire.{WireFrame}
use borderless.Clipboard.Engine.{ignore}
use borderless.Clipboard.Engine.Echo.{observe-echo}
use borderless.Pal.Clipboard.{Clipboard, poll, changed-same}
use borderless.Runtime.Hub.FanOut.{decided}
use borderless.Runtime.Hub.Desk
use borderless.Runtime.Hub.Desk.{Desk, written, receive, tick}
use borderless.Runtime.Link.{
  Side, Link, Step, on_clipboard, on_frame, on_poll, tick_spoke, arrive, deliver, step, run,
}

-- A frame that a node with this version ignores.
abbrev pub IsOld : ℕ → WireFrame → Type 0
IsOld v (WireFrame.clipboard snap) = snap.version ≤ v
IsOld v _ = Unit {0}

abbrev pub IsOldSnapshot : ℕ → ClipboardSnapshot → Type 0
IsOldSnapshot v snap = snap.version ≤ v

abbrev pub IsOldChannel : ℕ → Option (List WireFrame) → Type 0
IsOldChannel v none = Unit {0}
IsOldChannel v (some frames) = All (IsOld v) frames

-- Both watchers have seen what is on their clipboards, and every frame under way is old news.
pub record IsAtRest (tx : ℕ) (x y : String) (n : Link) : Type 0 where
  pub hub_text : n.desk.clipboard.content ≡ some x
  pub hub_last : n.desk.last ≡ some x
  pub spoke_text : n.spoke.clipboard.content ≡ some y
  pub spoke_last : n.spoke.last ≡ some y
  pub hub_old : All (IsOldSnapshot n.desk.hub.clipboard.local_version) n.queue
  pub spoke_old :
      IsOldChannel n.spoke.engine.local_version (lookup ℕ_discrete tx n.desk.hub.channels)

-- A step that is no copy.
abbrev pub IsWork : Step → Type 0
IsWork (Step.hub_copies _) = ⊥
IsWork (Step.spoke_copies _) = ⊥
IsWork _ = Unit {0}

old_receive :
    (peer : NodeId) (snap : ClipboardSnapshot) (d : Desk)
    → snap.version ≤ d.hub.clipboard.local_version
    → receive peer snap d ≡ d
unfolding receive borderless.Runtime.Hub.on_frame written
old_receive peer snap d old =
    let e = observe-echo d.hub.clipboard snap (inr old) in
    let h = decided peer snap d.hub ignore (ap (λ r. r.1) e) in rw (h, e) refl

old_frame :
    (frame : WireFrame) (s : Side) → IsOld s.engine.local_version frame → on_frame frame s ≡ s
unfolding on_frame on_clipboard written
old_frame (WireFrame.clipboard snap) s old = rw (observe-echo s.engine snap (inr old)) refl
old_frame (WireFrame.input ev) s old = refl
old_frame (WireFrame.fetch_request hash) s old = refl
old_frame (WireFrame.fetch_response hash i total bytes) s old = refl
old_frame (WireFrame.fetch_miss hash) s old = refl
old_frame (WireFrame.control c) s old = refl

seen :
    (t : String) (last : Option String) (c : Clipboard)
    → last ≡ some t
    → c.content ≡ some t
    → poll last c ≡ (some t, none)
unfolding poll
seen t last c l e = ground (arith, changed-same t)

hub_quiet :
    (now : ℕ) (t : String) (d : Desk)
    → d.last ≡ some t
    → d.clipboard.content ≡ some t
    → tick now d ≡ d
unfolding tick Desk.on_poll
hub_quiet now t d l e =
    ap (λ p. Desk.on_poll now p d) (seen t d.last d.clipboard l e)
    ∙ ap (λ o. record d { last = o }) (sym l)

spoke_quiet :
    (now : ℕ) (t : String) (n : Link)
    → n.spoke.last ≡ some t
    → n.spoke.clipboard.content ≡ some t
    → tick_spoke now n ≡ n
unfolding tick_spoke on_poll
spoke_quiet now t n l e =
    ap (λ p. on_poll now p n) (seen t n.spoke.last n.spoke.clipboard l e)
    ∙ ap (λ o. record n { spoke = record n.spoke { last = o } }) (sym l)

arrive-IsAtRest :
    (peer : NodeId) (tx : ℕ) (x y : String) (n : Link) (queue : List ClipboardSnapshot)
    → n.queue ≡ queue
    → IsAtRest tx x y n
    → IsAtRest tx x y (arrive peer queue n)
unfolding arrive
arrive-IsAtRest peer tx x y n [] e v = v
arrive-IsAtRest peer tx x y n (snap ∷ queue) e v =
    let old = subst (All (IsOldSnapshot n.desk.hub.clipboard.local_version)) e v.hub_old in
    subst (λ d. IsAtRest tx x y (record n { desk = d; queue = queue }))
      (sym (old_receive peer snap n.desk old.0))
      (record {
        hub_text = v.hub_text;
        hub_last = v.hub_last;
        spoke_text = v.spoke_text;
        spoke_last = v.spoke_last;
        hub_old = old.1;
        spoke_old = v.spoke_old;
      })

deliver-IsAtRest :
    (tx : ℕ) (x y : String) (n : Link) (o : Option (List WireFrame))
    → lookup ℕ_discrete tx n.desk.hub.channels ≡ o
    → IsAtRest tx x y n
    → IsAtRest tx x y (deliver tx o n)
unfolding deliver
deliver-IsAtRest tx x y n none e v = v
deliver-IsAtRest tx x y n (some []) e v = v
deliver-IsAtRest tx x y n (some (frame ∷ frames)) e v =
    let version = n.spoke.engine.local_version in
    let channels = n.desk.hub.channels in
    let rest = insert ℕ_discrete tx frames channels in
    let old = subst (IsOldChannel version) e v.spoke_old in
    subst
      (λ s. IsAtRest tx x y (record n {
        desk = record n.desk { hub = record n.desk.hub { channels = rest } };
        spoke = s;
      }))
      (sym (old_frame frame n.spoke old.0))
      (record {
        hub_text = v.hub_text;
        hub_last = v.hub_last;
        spoke_text = v.spoke_text;
        spoke_last = v.spoke_last;
        hub_old = v.hub_old;
        spoke_old =
            subst (IsOldChannel version) (sym (lookup-insert_self ℕ_discrete tx frames channels))
              old.1;
      })

step-IsAtRest :
    (peer : NodeId) (tx : ℕ) (x y : String) (n : Link) (s : Step)
    → IsAtRest tx x y n
    → IsWork s
    → IsAtRest tx x y (step peer tx s n)
unfolding step
step-IsAtRest peer tx x y n (Step.hub_copies t) v w = absurd w
step-IsAtRest peer tx x y n (Step.spoke_copies t) v w = absurd w
step-IsAtRest peer tx x y n (Step.hub_polls now) v w =
    subst (λ d. IsAtRest tx x y (record n { desk = d }))
      (sym (hub_quiet now x n.desk v.hub_last v.hub_text)) v
step-IsAtRest peer tx x y n (Step.spoke_polls now) v w =
    subst (IsAtRest tx x y) (sym (spoke_quiet now y n v.spoke_last v.spoke_text)) v
step-IsAtRest peer tx x y n Step.hub_receives v w = arrive-IsAtRest peer tx x y n n.queue refl v
step-IsAtRest peer tx x y n Step.spoke_receives v w =
    deliver-IsAtRest tx x y n (lookup ℕ_discrete tx n.desk.hub.channels) refl v

-- What is at rest stays at rest.
pub run-IsAtRest :
    (peer : NodeId) (tx : ℕ) (x y : String) (n : Link) (steps : List Step)
    → IsAtRest tx x y n
    → All IsWork steps
    → IsAtRest tx x y (run peer tx steps n)
unfolding run
run-IsAtRest peer tx x y n [] v w = v
run-IsAtRest peer tx x y n (s ∷ steps) v w =
    run-IsAtRest peer tx x y (step peer tx s n) steps (step-IsAtRest peer tx x y n s v w.0) w.1
