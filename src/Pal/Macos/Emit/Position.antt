-- ===== src/Pal/Macos/Emit/Position.antt =====
-- Where the emitter's events are, and which button they are of.
use Prim.Native.String.{String}
use borderless.Base.{
  ◌≡◌, refl, sym, ap, ◌∙◌, Bool, true, List, [], ◌∷◌, ◌++◌, append-nil, append_assoc, inl, inr,
  Option-cases,
}
use borderless.Base.Int.{negate}
use borderless.Base.Word.{wrap_i32}
use borderless.Core.HidUsage.{HidUsage}
use borderless.Core.ModifierMask.{ModifierMask}
use borderless.Core.Input.{InputEvent}
use borderless.Pal.Macos.{hid_to_mac}
use borderless.Pal.Macos.Emit
use borderless.Pal.Macos.Emit.{Float, MacosEmit, post, emit, emit_key, emit_button, move_to}

module _ (float : Float) where
  open float use {F, add, of_i32}

  -- A sequence of events, whatever comes of each.
  unfoldable pub emit_all : List InputEvent → MacosEmit float → MacosEmit float
  unfolding emit
  emit_all [] m = m
  emit_all (e ∷ es) m = emit_all es (emit float e m).0

  -- The position after an event.
  unfoldable pub next_pos : InputEvent → F × F → F × F
  next_pos (InputEvent.mouse_move dx dy _) (x, y) = (add x (of_i32 dx), add y (of_i32 dy))
  next_pos (InputEvent.mouse_abs x y _) p = (of_i32 x, of_i32 y)
  next_pos _ p = p

  -- The positions at which something of the mouse happens.
  unfoldable pub places_of : InputEvent → F × F → List (F × F)
  unfolding next_pos
  places_of (InputEvent.mouse_move dx dy ts) p = next_pos (InputEvent.mouse_move dx dy ts) p ∷ []
  places_of (InputEvent.mouse_abs x y i) p = next_pos (InputEvent.mouse_abs x y i) p ∷ []
  places_of (InputEvent.mouse_button _ _) p = p ∷ []
  places_of _ p = []

  unfoldable pub end_pos : List InputEvent → F × F → F × F
  unfolding next_pos
  end_pos [] p = p
  end_pos (e ∷ es) p = end_pos es (next_pos e p)

  unfoldable pub all_places : List InputEvent → F × F → List (F × F)
  unfolding places_of
  all_places [] p = []
  all_places (e ∷ es) p = places_of e p ++ all_places es (next_pos e p)

  -- The positions of the mouse events that were posted.
  unfoldable pub places : List (Emit.Event float) → List (F × F)
  places [] = []
  places (Emit.mouse et x y mb ∷ es) = (x, y) ∷ places es
  places (Emit.scroll _ _ ∷ es) = places es
  places (Emit.keyboard _ _ ∷ es) = places es

  places-append : (xs ys : List (Emit.Event float)) → places (xs ++ ys) ≡ places xs ++ places ys
  unfolding places
  places-append [] ys = refl
  places-append (Emit.mouse et x y mb ∷ xs) ys = ap (◌∷◌ (x, y)) (places-append xs ys)
  places-append (Emit.scroll a b ∷ xs) ys = places-append xs ys
  places-append (Emit.keyboard k d ∷ xs) ys = places-append xs ys

  -- Every event can be made.
  abbrev CanMake : MacosEmit float → Type 0
  CanMake m = (e : Emit.Event float) → m.can_make e ≡ true

  -- What one event does.
  abbrev Emitted : InputEvent → MacosEmit float → MacosEmit float → Type 0
  Emitted e m m' =
      (m'.last_pos ≡ next_pos e m.last_pos)
      × (places m'.posted ≡ places m.posted ++ places_of e m.last_pos)
      × (m'.can_make ≡ m.can_make)

  post-places :
      (ev : Emit.Event float) (text : String) (m : MacosEmit float)
      → CanMake m
      → let m' = (post float ev text m).0 in
        (m'.last_pos ≡ m.last_pos)
        × (places m'.posted ≡ places m.posted ++ places (ev ∷ []))
        × (m'.can_make ≡ m.can_make)
  unfolding post
  post-places ev text m c = rw (c ev, post) (refl, places-append m.posted (ev ∷ []), refl)

  emit_key-Emitted :
      (code : HidUsage) (pressed : Bool) (mods : ModifierMask) (m : MacosEmit float)
      → CanMake m
      → Emitted (InputEvent.key code pressed mods) m (emit_key float code pressed m).0
  unfolding emit_key next_pos places_of places
  emit_key-Emitted code pressed mods m c = elim (Option-cases (hid_to_mac code)) [
    | inl e ↦ rw (e, emit_key) (refl, sym (append-nil (places m.posted)), refl)
    | inr (k, e) ↦ rw (e, emit_key) (post-places (Emit.keyboard k pressed) "keyboard event" m c)
  ]

  emit-Emitted : (e : InputEvent) (m : MacosEmit float) → CanMake m → Emitted e m (emit float e m).0
  unfolding emit next_pos places_of move_to emit_button places
  emit-Emitted (InputEvent.mouse_move dx dy ts) m c =
      let p = next_pos (InputEvent.mouse_move dx dy ts) m.last_pos in
      post-places (Emit.mouse Emit.mouse_moved p.0 p.1 Emit.left) "mouse moved event"
        (record m { last_pos = p }) c
  emit-Emitted (InputEvent.mouse_abs x y i) m c =
      let p = next_pos (InputEvent.mouse_abs x y i) m.last_pos in
      post-places (Emit.mouse Emit.mouse_moved p.0 p.1 Emit.left) "mouse abs event"
        (record m { last_pos = p }) c
  emit-Emitted (InputEvent.mouse_button btn pressed) m c =
      let (et, mb) = Emit.mouse_event_type btn pressed in
      post-places (Emit.mouse et m.last_pos.0 m.last_pos.1 mb) "mouse button event" m c
  emit-Emitted (InputEvent.scroll dx dy) m c =
      post-places (Emit.scroll (wrap_i32 (negate dy)) (wrap_i32 (negate dx))) "scroll event" m c
  emit-Emitted (InputEvent.key code pressed mods) m c = emit_key-Emitted code pressed mods m c
  emit-Emitted (InputEvent.enter f mods) m c = (refl, sym (append-nil (places m.posted)), refl)
  emit-Emitted (InputEvent.leave t) m c = (refl, sym (append-nil (places m.posted)), refl)

  -- While the system can make every event, the emitter's mouse events are posted where the motions
  -- lead: each at the position that the moves since the last absolute position add up to, the moves
  -- themselves included, in order; and that is the position it ends with.
  pub emit_all-places :
      (es : List InputEvent) (m : MacosEmit float)
      → ((e : Emit.Event float) → m.can_make e ≡ true)
      → ((emit_all es m).last_pos ≡ end_pos es m.last_pos)
        × (places (emit_all es m).posted ≡ places m.posted ++ all_places es m.last_pos)
  unfolding emit_all end_pos all_places
  emit_all-places [] m c = (refl, sym (append-nil (places m.posted)))
  emit_all-places (e ∷ es) m c =
      let m' = (emit float e m).0 in
      let (pos', posted', same) = emit-Emitted e m c in
      let (last, all) = emit_all-places es m' (λ ev. ap (λ f. f ev) same ∙ c ev) in
      (
        last ∙ ap (end_pos es) pos',
        all
            ∙ ap (λ p. places m'.posted ++ all_places es p) pos'
            ∙ ap (λ ps. ps ++ all_places es (next_pos e m.last_pos)) posted'
            ∙ append_assoc (places m.posted) (places_of e m.last_pos) _,
      )
