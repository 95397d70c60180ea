-- ===== src/InputRouter/Router/Trace.antt =====
-- The events that a router sends out over any run, and who gets them.
use borderless.Base.{
  ℕ, ◌≡◌, ◌≢◌, ◌⊎◌, inl, inr, refl, if_pos, if_neg, Option, none, some, List, [], ◌∷◌, ◌++◌, Bool,
}
use mathlib.Core.Path.{subst, ap, ◌∙◌}
use borderless.Base.Int.{ℤ}
use borderless.Core.HidUsage.{HidUsage}
use borderless.Core.Input.{InputEvent}
use borderless.Core.ModifierMask.{ModifierMask}
use borderless.Core.Node.{NodeId, NodeId-discrete}
use borderless.InputRouter.Layout.{Layout}
use borderless.InputRouter.Modifier.{ModifierState}
use borderless.InputRouter.Modifier.Held.{Events, update_all}
use borderless.InputRouter.Router.{
  Router, Routed, local, remote, cross, on_mouse_move, on_key, track,
}
use borderless.InputRouter.Router.Bounds.{
  IsValid, forwarded, stayed, crossed, on_mouse_move-Moved, on_key-IsValid, stay-clamped,
  cross-IsValid, moved,
}

-- What comes from the local devices.
pub data Input : Type 0 where
  move : (dx dy : ℤ) → (ts : ℕ) → Input
  key : (code : HidUsage) → (pressed : Bool) → (modifiers : ModifierMask) → Input

unfoldable pub step : Layout → Router → Input → Option (Router × List Routed)
step layout r (move dx dy ts) = on_mouse_move r dx dy ts layout
step layout r (key code pressed modifiers) =
    let (r', out) = on_key r (InputEvent.key code pressed modifiers) in some (r', out ∷ [])

-- A run stops at a panic.
unfoldable pub run : Layout → Router → List Input → Option (Router × List Routed)
run layout r [] = some (r, [])
run layout r (i ∷ is) = elim (step layout r i) [
  | none ↦ none
  | some (r', out) ↦ elim (run layout r' is) [
    | none ↦ none
    | some (r'', outs) ↦ some (r'', out ++ outs)
  ]
]

-- An event that is no change of focus.
abbrev pub IsPlain : InputEvent → Type 0
IsPlain (InputEvent.enter _ _) = ⊥
IsPlain (InputEvent.leave _) = ⊥
IsPlain _ = Unit {0}

-- Outputs in good order, from one focused node to another: local events while the focus is at home,
-- a change of focus as a `Leave` with the `Enter` for the new node right behind it, and any other
-- event to a remote node only while the focus is there.
pub data InOrder (self : NodeId) : NodeId → List Routed → NodeId → Type 0 where
  done : {a : NodeId} → InOrder self a [] a
  at_home :
      {a b : NodeId} {out : List Routed} (event : InputEvent)
      → IsPlain event
      → a ≡ self
      → InOrder self a out b
      → InOrder self a (local event ∷ out) b
  changes :
      {a b : NodeId} {out : List Routed} (next : NodeId) (mask : ModifierMask)
      → a ≡ self
      → InOrder self next out b
      → InOrder self a
          (remote self (InputEvent.leave next) ∷ remote next (InputEvent.enter self mask) ∷ out)
          b
  away :
      {a b : NodeId} {out : List Routed} (event : InputEvent)
      → IsPlain event
      → a ≢ self
      → InOrder self a out b
      → InOrder self a (remote a event ∷ out) b

-- The node is in the list.
abbrev pub IsIn : NodeId → List NodeId → Type 0
IsIn n [] = ⊥
IsIn n (m ∷ ms) = (n ≡ m) ⊎ IsIn n ms

-- An `Enter` that comes from the own node.
abbrev pub Greets : NodeId → InputEvent → Type 0
Greets self (InputEvent.enter from _) = from ≡ self
Greets self _ = ⊥

-- The first event that goes to a node, but for the known ones, is an `Enter` from the own node.
abbrev pub EntersFirst : NodeId → List NodeId → List Routed → Type 0
EntersFirst self known [] = Unit {0}
EntersFirst self known (local _ ∷ out) = EntersFirst self known out
EntersFirst self known (remote n event ∷ out) =
    (Greets self event ⊎ IsIn n known) × EntersFirst self (n ∷ known) out

InOrder-EntersFirst :
    {self a b : NodeId} {out : List Routed} (known : List NodeId)
    → InOrder self a out b
    → IsIn self known
    → IsIn a known
    → EntersFirst self known out
InOrder-EntersFirst known done own here = tt
InOrder-EntersFirst known (at_home event plain home o) own here =
    InOrder-EntersFirst known o own here
InOrder-EntersFirst known (changes next mask home o) own here =
    (inr own, (inl refl, InOrder-EntersFirst _ o (inr (inr own)) (inl refl)))
InOrder-EntersFirst known (away event plain gone o) own here =
    (inr here, InOrder-EntersFirst _ o (inr own) (inr here))

-- The key events among the inputs.
unfoldable pub events_of : List Input → Events
events_of [] = []
events_of (move dx dy ts ∷ is) = events_of is
events_of (key code pressed modifiers ∷ is) = (code, pressed) ∷ events_of is

-- One input from a valid state.
pub record Stepped (layout : Layout) (r : Router) (i : Input) : Type 0 where
  pub next : Router
  pub out : List Routed
  pub result : step layout r i ≡ some (next, out)
  pub valid : IsValid next
  pub same_self : next.self_id ≡ r.self_id
  pub tracked : next.modifiers ≡ update_all r.modifiers (events_of (i ∷ []))
  pub ordered :
      (rest : List Routed) (b : NodeId)
      → InOrder r.self_id next.active rest b
      → InOrder r.self_id r.active (out ++ rest) b

move-Stepped :
    (layout : Layout) (r : Router) (dx dy : ℤ) (ts : ℕ)
    → IsValid r
    → Stepped layout r (move dx dy ts)
unfolding step cross events_of update_all
move-Stepped layout r dx dy ts v = elim (on_mouse_move-Moved r dx dy ts layout v) [
  | forwarded gone e ↦ record {
    next = r;
    out = _;
    result = e;
    valid = v;
    same_self = refl;
    tracked = refl;
    ordered = λ rest b o. away (InputEvent.mouse_move dx dy ts) tt gone o;
  }
  | stayed home _ e ↦ record {
    next = _;
    out = _;
    result = e;
    valid = (stay-clamped (moved r dx dy) (InputEvent.mouse_move dx dy ts) v.wide v.high).1;
    same_self = refl;
    tracked = refl;
    ordered = λ rest b o. at_home (InputEvent.mouse_move dx dy ts) tt home o;
  }
  | crossed n home _ e ↦ record {
    next = (cross (moved r dx dy) n).0;
    out = (cross (moved r dx dy) n).1;
    result = e;
    valid = cross-IsValid (moved r dx dy) n v.wide v.high;
    same_self = refl;
    tracked = refl;
    ordered = λ rest b o. changes n r.modifiers.mask home o;
  }
]

key-Stepped :
    (layout : Layout) (r : Router) (code : HidUsage) (pressed : Bool) (modifiers : ModifierMask)
    → IsValid r
    → Stepped layout r (key code pressed modifiers)
unfolding step on_key events_of update_all track
key-Stepped layout r code pressed modifiers v = record {
  next = _;
  out = _;
  result = refl;
  valid = on_key-IsValid r (InputEvent.key code pressed modifiers) v;
  same_self = refl;
  tracked = refl;
  ordered = λ rest b o. elim (NodeId-discrete r.active r.self_id) [
    | yes home ↦ rw (if_pos _ home) (at_home _ tt home o)
    | no gone ↦ rw (if_neg _ gone) (away _ tt gone o)
  ];
}

pub step-Stepped : (layout : Layout) (r : Router) (i : Input) → IsValid r → Stepped layout r i
step-Stepped layout r (move dx dy ts) v = move-Stepped layout r dx dy ts v
step-Stepped layout r (key code pressed modifiers) v = key-Stepped layout r code pressed modifiers v

-- A whole run.
pub record Ran (layout : Layout) (r : Router) (is : List Input) : Type 0 where
  pub last : Router
  pub out : List Routed
  pub result : run layout r is ≡ some (last, out)
  pub valid : IsValid last
  pub tracked : last.modifiers ≡ update_all r.modifiers (events_of is)
  pub ordered : InOrder r.self_id r.active out last.active
  pub entered : EntersFirst r.self_id (r.self_id ∷ r.active ∷ []) out

update_all-step :
    (s : ModifierState) (i : Input) (is : List Input)
    → update_all (update_all s (events_of (i ∷ []))) (events_of is)
      ≡ update_all s (events_of (i ∷ is))
unfolding update_all events_of
update_all-step s (move dx dy ts) is = refl
update_all-step s (key code pressed modifiers) is = refl

-- From a valid state, whose cursor is on its screen, a run of moves and keys never panics and ends in
-- a valid state. Its outputs are in good order: local events and changes of focus come only while the
-- focus is at home, and any other event goes to the remote node that has the focus. So every node but
-- the own one and the one that has the focus at the start gets an `Enter` before anything else. The
-- modifier state is the one of all key events, wherever the focus was.
pub run-Ran : (layout : Layout) (r : Router) (is : List Input) → IsValid r → Ran layout r is
unfolding run
run-Ran layout r [] v = record {
  last = r;
  out = [];
  result = refl;
  valid = v;
  tracked = unfold update_all events_of in refl;
  ordered = done;
  entered = tt;
}
run-Ran layout r (i ∷ is) v =
    let s = step-Stepped layout r i v in
    let t = run-Ran layout s.next is s.valid in
    let ordered =
      s.ordered t.out t.last.active
        (subst (λ n. InOrder n s.next.active t.out t.last.active) s.same_self t.ordered) in
    record {
      last = t.last;
      out = s.out ++ t.out;
      result = rw (s.result, run) (rw (t.result, run));
      valid = t.valid;
      tracked =
          t.tracked
          ∙ ap (λ m. update_all m (events_of is)) s.tracked
          ∙ update_all-step r.modifiers i is;
      ordered = ordered;
      entered = InOrder-EntersFirst (r.self_id ∷ r.active ∷ []) ordered (inl refl) (inr (inl refl));
    }
