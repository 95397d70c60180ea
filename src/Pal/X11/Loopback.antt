-- ===== src/Pal/X11/Loopback.antt =====
-- What a capture makes of the requests of an emitter on the same server: XTest input comes back as raw
-- events of the same keycode or button, which is what the parameters say of the server.
pub mod Key
use Prim.Native.String.{String}
use borderless.Base.{
  ℕ, zero, suc, ◌+◌, ◌-◌, ◌*◌, ◌^◌, ◌<◌, ◌≤◌, ◌≡◌, ◌⊎◌, refl, sym, ap, ap₂, ◌∙◌, Bool, true, false,
  Option, none, some, List, [], ◌∷◌, ◌++◌, append-nil, append_assoc, if◌then◌else◌, ◌==◌, arith,
  inl, inr, get_elem?,
}
use borderless.Base.Int.{ℤ, pos, negsuc, pos_part, neg_part, ◌+ℤ◌, +ℤ_parts, eq_of_parts}
use borderless.Core.HidUsage.{HidUsage}
use borderless.Core.Input.{Button, InputEvent}
use borderless.Core.ModifierMask.{ModifierMask}
use borderless.Pal.X11.Capture.{Keyboard, Event, handle_button, handle_key, dispatch_event}
use borderless.Pal.X11.Emit.{
  EventType, FakeInput, KeysymTable, press, button_type, key_type, unsigned_abs, by_sign,
  button_to_code, hid_to_keycode,
}
use borderless.Pal.X11.Emit.Plan.{Action, alone, one_click, ticks, key_plan, plan}
use borderless.Pal.X11.Scrolls.{
  total_scroll, releases, wheel, add_times, add_times-zero, total_scroll-wheel, releases-wheel,
  none_released, unit_of, add_times-unit_of,
}

abbrev Captured : Type 0
Captured = ModifierMask × List InputEvent

-- A button that is not one of 1 to 9 under another name.
abbrev pub HasOwnCode : Button → Type 0
HasOwnCode (Button.other n) = ((n ≡ 0) ⊎ (9 < n)) × (n < 2 ^ 8)
HasOwnCode _ = Unit {0}

-- XTest input comes back as the raw event of the same kind, with the same keycode or button.
pub record ComesBack (back : FakeInput → Event) : Type 0 where
  pub key_pressed : (k : ℕ) → back (press EventType.key_press k) ≡ Event.raw_key_press k
  pub key_released : (k : ℕ) → back (press EventType.key_release k) ≡ Event.raw_key_release k
  pub pressed : (k : ℕ) → back (press EventType.button_press k) ≡ Event.raw_button_press k
  pub released : (k : ℕ) → back (press EventType.button_release k) ≡ Event.raw_button_release k

module _ (kb : Keyboard) (now : ℕ) (back : FakeInput → Event) where
  -- The mask after the requests among some actions, and what the capture sends for them.
  unfoldable pub capture_actions : List Action → ModifierMask → Captured
  capture_actions [] m = (m, [])
  capture_actions (Action.flush ∷ actions) m = capture_actions actions m
  capture_actions (Action.request r error ∷ actions) m =
      let (m, sent) = dispatch_event kb now (back r) m in
      let (m, later) = capture_actions actions m in (m, sent ++ later)

  capture_actions-append :
      (xs ys : List Action) (m : ModifierMask)
      → capture_actions (xs ++ ys) m
        ≡ (let a = capture_actions xs m in let b = capture_actions ys a.0 in (b.0, a.1 ++ b.1))
  unfolding capture_actions
  capture_actions-append [] ys m = refl
  capture_actions-append (Action.flush ∷ xs) ys m = capture_actions-append xs ys m
  capture_actions-append (Action.request r error ∷ xs) ys m =
      let (m', sent) = dispatch_event kb now (back r) m in
      rw (capture_actions-append xs ys m') (rw (append_assoc sent (capture_actions xs m').1 _) refl)

  module _ (b : ComesBack back) where
    one_button :
        (btn : ℕ) (p : Bool) (text : String) (m : ModifierMask)
        → capture_actions (alone (press (button_type p) btn) text) m ≡ (m, handle_button btn p)
    unfolding capture_actions dispatch_event
    one_button btn true text m = rw (b.pressed btn) (rw (append-nil (handle_button btn true)) refl)
    one_button btn false text m =
        rw (b.released btn) (rw (append-nil (handle_button btn false)) refl)

    ticks-wheel :
        (dx dy : ℤ) (code times : ℕ) (m : ModifierMask)
        → handle_button code true ≡ InputEvent.scroll dx dy ∷ []
        → handle_button code false ≡ InputEvent.mouse_button (Button.other code) false ∷ []
        → capture_actions (ticks code times) m ≡ (m, wheel dx dy code times)
    unfolding capture_actions ticks wheel dispatch_event
    ticks-wheel dx dy code zero m p r = refl
    ticks-wheel dx dy code (suc times) m p r =
        rw (b.pressed code, b.released code)
          (rw (p, r) (rw (ticks-wheel dx dy code times m p r) refl))

    -- A button that is emitted is captured as the same button, if it has a number of its own: not one
    -- of the named buttons' or of the wheel's, which are 1 to 9.
    pub button-captured :
        (table : KeysymTable) (btn : Button) (p : Bool) (m : ModifierMask)
        → HasOwnCode btn
        → capture_actions (plan table (InputEvent.mouse_button btn p)) m
          ≡ (m, InputEvent.mouse_button btn p ∷ [])
    unfolding plan handle_button button_to_code
    button-captured table Button.left p m h = one_button 1 p "xtest button" m
    button-captured table Button.right p m h = one_button 3 p "xtest button" m
    button-captured table Button.middle p m h = one_button 2 p "xtest button" m
    button-captured table Button.back p m h = one_button 8 p "xtest button" m
    button-captured table Button.forward p m h = one_button 9 p "xtest button" m
    button-captured table (Button.other n) p m h = one_button n p "xtest button" m ∙ ground arith

    vertical :
        (dy : ℤ) (m : ModifierMask)
        → capture_actions (ticks (by_sign dy 4 5) (unsigned_abs dy)) m
          ≡ (m, wheel (pos 0) (unit_of dy) (by_sign dy 4 5) (unsigned_abs dy))
    unfolding handle_button
    vertical (pos n) m = ticks-wheel (pos 0) (pos 1) 5 (n + 0) m refl refl
    vertical (negsuc n) m = ticks-wheel (pos 0) (negsuc 0) 4 (0 + suc n) m refl refl

    horizontal :
        (dx : ℤ) (m : ModifierMask)
        → capture_actions (ticks (by_sign dx 6 7) (unsigned_abs dx)) m
          ≡ (m, wheel (unit_of dx) (pos 0) (by_sign dx 6 7) (unsigned_abs dx))
    unfolding handle_button
    horizontal (pos n) m = ticks-wheel (pos 1) (pos 0) 7 (n + 0) m refl refl
    horizontal (negsuc n) m = ticks-wheel (negsuc 0) (pos 0) 6 (0 + suc n) m refl refl

    scroll-wheels :
        (table : KeysymTable) (dx dy : ℤ) (m : ModifierMask)
        → capture_actions (plan table (InputEvent.scroll dx dy)) m ≡ (
          m,
          wheel (pos 0) (unit_of dy) (by_sign dy 4 5) (unsigned_abs dy)
              ++ (wheel (unit_of dx) (pos 0) (by_sign dx 6 7) (unsigned_abs dx) ++ []),
        )
    unfolding plan
    scroll-wheels table dx dy m =
        rw (append-nil (wheel (unit_of dx) (pos 0) (by_sign dx 6 7) (unsigned_abs dx))) (
          capture_actions-append (ticks (by_sign dy 4 5) (unsigned_abs dy))
            (ticks (by_sign dx 6 7) (unsigned_abs dx)) m
          ∙ rw (vertical dy m) (rw (horizontal dx m) refl))

    -- A scroll that is emitted is captured as scrolls that add up to it. Each of its units also comes
    -- as the release of a button that nobody pressed, since the capture takes the release of a wheel
    -- button for one of an ordinary button. The modifiers stay as they are.
    pub scroll-captured :
        (table : KeysymTable) (dx dy : ℤ) (m : ModifierMask)
        → let (m', sent) = capture_actions (plan table (InputEvent.scroll dx dy)) m in
          (m' ≡ m)
          × (total_scroll sent ≡ (dx, dy))
          × (releases sent ≡ unsigned_abs dx + unsigned_abs dy)
    scroll-captured table dx dy m =
        let y = wheel (pos 0) (unit_of dy) (by_sign dy 4 5) (unsigned_abs dy) in
        let x = wheel (unit_of dx) (pos 0) (by_sign dx 6 7) (unsigned_abs dx) in
        rw (scroll-wheels table dx dy m) (
          refl,
          total_scroll-wheel (pos 0) (unit_of dy) (by_sign dy 4 5) (unsigned_abs dy) (x ++ [])
              ∙ rw (total_scroll-wheel (unit_of dx) (pos 0) (by_sign dx 6 7) (unsigned_abs dx) []) (
                  unfold total_scroll in
                  (ap₂ (λ a b. (a, b)) (add_times-zero (unsigned_abs dy) _ ∙ add_times-unit_of dx)
                    (ap (add_times (unit_of dy) (unsigned_abs dy))
                        (add_times-zero (unsigned_abs dx) (pos 0))
                      ∙ add_times-unit_of dy))),
          (omega (
            arith,
            releases-wheel (pos 0) (unit_of dy) (by_sign dy 4 5) (unsigned_abs dy) (x ++ []),
            releases-wheel (unit_of dx) (pos 0) (by_sign dx 6 7) (unsigned_abs dx) [],
            none_released,
          )),
        )
