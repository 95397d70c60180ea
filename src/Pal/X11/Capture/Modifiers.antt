-- ===== src/Pal/X11/Capture/Modifiers.antt =====
-- The modifiers that a capture sends along with its keys.
use mathlib.Core.Path.{subst}
use borderless.Base.{
  ℕ, ◌+◌, ◌<◌, ◌≡◌, refl, sym, ap, ◌∙◌, Bool, true, false, List, [], ◌∷◌, ◌++◌, arith, inl, inr,
  Option-cases,
}
use borderless.Core.HidUsage.{HidUsage}
use borderless.Core.Input.{InputEvent}
use borderless.Core.ModifierMask
use borderless.Core.ModifierMask.{ModifierMask}
use borderless.InputRouter.Modifier
use borderless.InputRouter.Modifier.{ModifierState, update, new}
use borderless.InputRouter.Modifier.Held.{
  Events, update_all, is_held, has_bit, first_modifier, mask_is_held,
}
use borderless.Pal.X11.Capture.{
  Keyboard, Event, Fp3232, key_usage, update_modifiers, handle_key, handle_motion, handle_button,
  dispatch_event, modifier_bit,
}

-- The capture's update of its mask is the one of the router.
pub update_modifiers-update :
    (hid : HidUsage) (pressed : Bool) (m : ModifierMask)
    → update_modifiers hid pressed m ≡ (update (record { mask = m }) hid pressed).0.mask
unfolding update_modifiers update Modifier.modifier_bit modifier_bit
update_modifiers-update hid pressed m = ground arith

-- A run of the capture: the mask, and all that is sent.
unfoldable pub capture_run :
    Keyboard → List (ℕ × Event) → ModifierMask → ModifierMask × List InputEvent
unfolding dispatch_event
capture_run kb [] m = (m, [])
capture_run kb ((now, ev) ∷ evs) m =
    let (m, sent) = dispatch_event kb now ev m in
    let (m, later) = capture_run kb evs m in (m, sent ++ later)

-- The key events among what is sent.
unfoldable pub keys : List InputEvent → Events
keys [] = []
keys (InputEvent.key code pressed mods ∷ es) = (code, pressed) ∷ keys es
keys (_ ∷ es) = keys es

keys-append : (xs ys : List InputEvent) → keys (xs ++ ys) ≡ keys xs ++ keys ys
unfolding keys
keys-append [] ys = refl
keys-append (InputEvent.mouse_move dx dy ts ∷ xs) ys = keys-append xs ys
keys-append (InputEvent.mouse_abs x y i ∷ xs) ys = keys-append xs ys
keys-append (InputEvent.mouse_button b p ∷ xs) ys = keys-append xs ys
keys-append (InputEvent.scroll dx dy ∷ xs) ys = keys-append xs ys
keys-append (InputEvent.key c p m ∷ xs) ys = ap (◌∷◌ (c, p)) (keys-append xs ys)
keys-append (InputEvent.enter f m ∷ xs) ys = keys-append xs ys
keys-append (InputEvent.leave t ∷ xs) ys = keys-append xs ys

update_all-append :
    (s : ModifierState) (xs ys : Events) → update_all s (xs ++ ys) ≡ update_all (update_all s xs) ys
unfolding update_all
update_all-append s [] ys = refl
update_all-append s ((c, p) ∷ xs) ys = update_all-append (update s c p).0 xs ys

abbrev state : ModifierMask → ModifierState
state m = record { mask = m }

-- The mask after some keys.
abbrev after_keys : ModifierMask → Events → ModifierMask
after_keys m es = (update_all (state m) es).mask

-- Each key carries the mask of the keys up to it, itself included.
abbrev Masks : ModifierMask → List InputEvent → Type 0
Masks m [] = Unit {0}
Masks m (InputEvent.key c p mods ∷ es) = (mods ≡ (update (state m) c p).0.mask) × Masks mods es
Masks m (InputEvent.mouse_move _ _ _ ∷ es) = Masks m es
Masks m (InputEvent.mouse_abs _ _ _ ∷ es) = Masks m es
Masks m (InputEvent.mouse_button _ _ ∷ es) = Masks m es
Masks m (InputEvent.scroll _ _ ∷ es) = Masks m es
Masks m (InputEvent.enter _ _ ∷ es) = Masks m es
Masks m (InputEvent.leave _ ∷ es) = Masks m es

Masks-append :
    (m : ModifierMask) (xs ys : List InputEvent)
    → Masks m xs
    → Masks (after_keys m (keys xs)) ys
    → Masks m (xs ++ ys)
unfolding keys update_all
Masks-append m [] ys h k = k
Masks-append m (InputEvent.key c p mods ∷ xs) ys h k =
    (h.0, Masks-append mods xs ys h.1 (subst (λ n. Masks (after_keys n (keys xs)) ys) (sym h.0) k))
Masks-append m (InputEvent.mouse_move dx dy ts ∷ xs) ys h k = Masks-append m xs ys h k
Masks-append m (InputEvent.mouse_abs x y i ∷ xs) ys h k = Masks-append m xs ys h k
Masks-append m (InputEvent.mouse_button b p ∷ xs) ys h k = Masks-append m xs ys h k
Masks-append m (InputEvent.scroll dx dy ∷ xs) ys h k = Masks-append m xs ys h k
Masks-append m (InputEvent.enter f n ∷ xs) ys h k = Masks-append m xs ys h k
Masks-append m (InputEvent.leave t ∷ xs) ys h k = Masks-append m xs ys h k

quiet-Masks : (m : ModifierMask) (xs : List InputEvent) → keys xs ≡ [] → Masks m xs
unfolding keys
quiet-Masks m [] h = tt
quiet-Masks m (InputEvent.key c p mods ∷ xs) h = absurd (cc)
quiet-Masks m (InputEvent.mouse_move dx dy ts ∷ xs) h = quiet-Masks m xs h
quiet-Masks m (InputEvent.mouse_abs x y i ∷ xs) h = quiet-Masks m xs h
quiet-Masks m (InputEvent.mouse_button b p ∷ xs) h = quiet-Masks m xs h
quiet-Masks m (InputEvent.scroll dx dy ∷ xs) h = quiet-Masks m xs h
quiet-Masks m (InputEvent.enter f n ∷ xs) h = quiet-Masks m xs h
quiet-Masks m (InputEvent.leave t ∷ xs) h = quiet-Masks m xs h

handle_button-quiet : (detail : ℕ) (pressed : Bool) → keys (handle_button detail pressed) ≡ []
unfolding keys handle_button
handle_button-quiet detail pressed = ground arith

handle_motion-quiet :
    (mask : List ℕ) (values : List Fp3232) (now : ℕ) → keys (handle_motion mask values now) ≡ []
unfolding keys handle_motion
handle_motion-quiet mask values now = ground arith

-- What one step does to the mask.
abbrev Tracks : ModifierMask → ModifierMask × List InputEvent → Type 0
Tracks m (m', sent) = Masks m sent × (m' ≡ after_keys m (keys sent))

quiet-Tracks : (m : ModifierMask) (xs : List InputEvent) → keys xs ≡ [] → Tracks m (m, xs)
unfolding update_all
quiet-Tracks m xs h = (quiet-Masks m xs h, rw h refl)

handle_key-Tracks :
    (kb : Keyboard) (keycode : ℕ) (pressed : Bool) (m : ModifierMask)
    → Tracks m (handle_key kb keycode pressed m)
unfolding handle_key keys update_all
handle_key-Tracks kb keycode pressed m = elim (Option-cases (key_usage kb keycode)) [
  | inl e ↦ rw (e, handle_key) (tt, refl)
  | inr (hid, e) ↦
      let same = update_modifiers-update hid pressed m in rw (e, handle_key) ((same, tt), same)
]

dispatch_event-Tracks :
    (kb : Keyboard) (now : ℕ) (ev : Event) (m : ModifierMask)
    → Tracks m (dispatch_event kb now ev m)
unfolding dispatch_event keys update_all
dispatch_event-Tracks kb now (Event.raw_key_press d) m = handle_key-Tracks kb d true m
dispatch_event-Tracks kb now (Event.raw_key_release d) m = handle_key-Tracks kb d false m
dispatch_event-Tracks kb now (Event.raw_button_press d) m =
    quiet-Tracks m (handle_button d true) (handle_button-quiet d true)
dispatch_event-Tracks kb now (Event.raw_button_release d) m =
    quiet-Tracks m (handle_button d false) (handle_button-quiet d false)
dispatch_event-Tracks kb now (Event.raw_motion mask values) m =
    quiet-Tracks m (handle_motion mask values now) (handle_motion-quiet mask values now)
dispatch_event-Tracks kb now Event.other m = (tt, refl)

capture_run-Tracks :
    (kb : Keyboard) (evs : List (ℕ × Event)) (m : ModifierMask) → Tracks m (capture_run kb evs m)
unfolding capture_run keys update_all
capture_run-Tracks kb [] m = (tt, refl)
capture_run-Tracks kb ((now, ev) ∷ evs) m =
    let (m', sent) = dispatch_event kb now ev m in
    let (masks, end) = dispatch_event-Tracks kb now ev m in
    let (masks', end') = capture_run-Tracks kb evs m' in
    let (m'', later) = capture_run kb evs m' in
    (
      Masks-append m sent later masks (subst (λ n. Masks n later) end masks'),
      end'
          ∙ ap (λ n. after_keys n (keys later)) end
          ∙ sym (ap (λ s. s.mask) (update_all-append (state m) (keys sent) (keys later)))
          ∙ sym (ap (after_keys m) (keys-append sent later)),
    )

Masks-split :
    (m : ModifierMask) (before : List InputEvent) (code : HidUsage) (pressed : Bool)
    (mods : ModifierMask) (after : List InputEvent)
    → Masks m (before ++ (InputEvent.key code pressed mods ∷ after))
    → mods ≡ after_keys m (keys before ++ ((code, pressed) ∷ []))
unfolding keys update_all
Masks-split m [] code pressed mods after h = h.0
Masks-split m (InputEvent.key c p n ∷ xs) code pressed mods after h =
    Masks-split n xs code pressed mods after h.1
    ∙ ap (λ k. after_keys k (keys xs ++ ((code, pressed) ∷ []))) h.0
Masks-split m (InputEvent.mouse_move dx dy ts ∷ xs) code pressed mods after h =
    Masks-split m xs code pressed mods after h
Masks-split m (InputEvent.mouse_abs x y i ∷ xs) code pressed mods after h =
    Masks-split m xs code pressed mods after h
Masks-split m (InputEvent.mouse_button b p ∷ xs) code pressed mods after h =
    Masks-split m xs code pressed mods after h
Masks-split m (InputEvent.scroll dx dy ∷ xs) code pressed mods after h =
    Masks-split m xs code pressed mods after h
Masks-split m (InputEvent.enter f n ∷ xs) code pressed mods after h =
    Masks-split m xs code pressed mods after h
Masks-split m (InputEvent.leave t ∷ xs) code pressed mods after h =
    Masks-split m xs code pressed mods after h

-- Wherever a key stands among the events that a capture has sent since it was started, whatever raw
-- events came in, its modifiers have the bit of a modifier key exactly when the last event that was
-- sent for that key, up to and with the key itself, was a press.
pub capture_run-held :
    (kb : Keyboard) (evs : List (ℕ × Event)) (before : List InputEvent) (code : HidUsage)
    (pressed : Bool) (mods : ModifierMask) (after : List InputEvent) (j : ℕ)
    → (capture_run kb evs ModifierMask.empty).1
      ≡ before ++ (InputEvent.key code pressed mods ∷ after)
    → j < 8
    → has_bit mods j ≡ is_held (first_modifier + j) false (keys before ++ ((code, pressed) ∷ []))
unfolding new
capture_run-held kb evs before code pressed mods after j sent hj =
    let masks = (capture_run-Tracks kb evs ModifierMask.empty).0 in
    ap (λ n. has_bit n j)
      (Masks-split ModifierMask.empty before code pressed mods after
        (subst (Masks ModifierMask.empty) sent masks))
    ∙ mask_is_held (keys before ++ ((code, pressed) ∷ [])) j hj
