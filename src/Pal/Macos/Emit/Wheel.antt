-- ===== src/Pal/Macos/Emit/Wheel.antt =====
-- A wheel that is turned at an X11 hub, on the desktop of a Mac.
use Prim.Native.String.{String}
use borderless.Base.{
  ℕ, ◌≡◌, refl, sym, ap, ◌∙◌, true, false, List, [], ◌∷◌, ◌++◌, append-nil, append_assoc,
}
use borderless.Base.Int.{pos, negsuc}
use borderless.Base.Word.{wrap_i32}
use borderless.Core.Input.{InputEvent}
use borderless.Core.ModifierMask.{ModifierMask}
use borderless.Pal.Macos.Emit
use borderless.Pal.Macos.Emit.{Float, MacosEmit, post, emit, emit_button}
use borderless.Pal.Macos.Emit.Position.{emit_all}
use borderless.Pal.X11.Capture.{Keyboard, handle_button, dispatch_event}
use borderless.Pal.X11.Capture as X11
use borderless.Pal.X11.Capture.Modifiers.{capture_run}

-- A notch of the wheel.
pub data Turn : Type 0 where
  up down left right : Turn

abbrev pub button_of : Turn → ℕ
button_of up = 4
button_of down = 5
button_of left = 6
button_of right = 7

-- The notches with the times of their two raw events.
abbrev pub Turns : Type 0
Turns = List (ℕ × ℕ × Turn)

-- The raw events of an X server: each notch is a press and a release of a wheel button.
abbrev pub raw_events : Turns → List (ℕ × X11.Event)
raw_events [] = []
raw_events ((now, later, t) ∷ ts) =
    (now, X11.raw_button_press (button_of t))
    ∷ (later, X11.raw_button_release (button_of t))
    ∷ raw_events ts

module _ (float : Float) where
  open float use {F}

  -- The scroll by one line, in the directions of a Mac.
  abbrev pub line_of : Turn → Emit.Event float
  line_of up = Emit.scroll (pos 1) (pos 0)
  line_of down = Emit.scroll (negsuc 0) (pos 0)
  line_of left = Emit.scroll (pos 0) (pos 1)
  line_of right = Emit.scroll (pos 0) (negsuc 0)

  -- What a notch posts at the position of the pointer: its line, and a release of the middle button.
  abbrev pub posts_of : Turns → F × F → List (Emit.Event float)
  posts_of [] p = []
  posts_of ((now, later, t) ∷ ts) p =
      line_of t ∷ Emit.mouse Emit.other_mouse_up p.0 p.1 Emit.center ∷ posts_of ts p

  made :
      (ev : Emit.Event float) (text : String) (m : MacosEmit float)
      → ((e : Emit.Event float) → m.can_make e ≡ true)
      → (post float ev text m).0 ≡ record m { posted = m.posted ++ (ev ∷ []) }
  unfolding post
  made ev text m c = rw (c ev, post) refl

  -- The two events of a notch.
  two_posts :
      (ev : Emit.Event float) (m : MacosEmit float)
      → ((e : Emit.Event float) → m.can_make e ≡ true)
      → (emit_button float (Emit.other_mouse_up, Emit.center) (post float ev "scroll event" m).0).0
        ≡ record m {
          posted =
              m.posted
              ++ (ev ∷ Emit.mouse Emit.other_mouse_up m.last_pos.0 m.last_pos.1 Emit.center ∷ []);
        }
  unfolding emit_button
  two_posts ev m c =
      let up = Emit.mouse Emit.other_mouse_up m.last_pos.0 m.last_pos.1 Emit.center in
      ap (λ k. (emit_button float (Emit.other_mouse_up, Emit.center) k).0)
        (made ev "scroll event" m c)
      ∙ made up "mouse button event" (record m { posted = m.posted ++ (ev ∷ []) }) c
      ∙ ap (λ l. record m { posted = l }) (append_assoc m.posted (ev ∷ []) (up ∷ []))

  -- The events that the capture makes of a notch, and the Mac of those.
  notch :
      (t : Turn) (m : MacosEmit float)
      → ((e : Emit.Event float) → m.can_make e ≡ true)
      → emit_all float (handle_button (button_of t) true ++ handle_button (button_of t) false) m
        ≡ record m {
          posted =
              m.posted
              ++ (line_of t
                  ∷ Emit.mouse Emit.other_mouse_up m.last_pos.0 m.last_pos.1 Emit.center
                  ∷ []);
        }
  unfolding emit_all emit handle_button wrap_i32
  notch up m c = two_posts (line_of up) m c
  notch down m c = two_posts (line_of down) m c
  notch left m c = two_posts (line_of left) m c
  notch right m c = two_posts (line_of right) m c

  emit_all-append :
      (xs ys : List InputEvent) (m : MacosEmit float)
      → emit_all float (xs ++ ys) m ≡ emit_all float ys (emit_all float xs m)
  unfolding emit_all
  emit_all-append [] ys m = refl
  emit_all-append (e ∷ xs) ys m = emit_all-append xs ys (emit float e m).0

  captured :
      (kb : Keyboard) (now later : ℕ) (t : Turn) (ts : Turns) (mask : ModifierMask)
      → capture_run kb (raw_events ((now, later, t) ∷ ts)) mask ≡ (
        (capture_run kb (raw_events ts) mask).0,
        (handle_button (button_of t) true ++ handle_button (button_of t) false)
            ++ (capture_run kb (raw_events ts) mask).1,
      )
  unfolding capture_run dispatch_event
  captured kb now later t ts mask =
      ap (λ l. ((capture_run kb (raw_events ts) mask).0, l))
        (sym (
          append_assoc (handle_button (button_of t) true) (handle_button (button_of t) false)
            (capture_run kb (raw_events ts) mask).1))

  -- A wheel that is turned at an X11 hub scrolls a Mac and lets go of its middle button. Whatever the
  -- notches, in whichever directions and however many, while the Mac can make its events it posts for
  -- each of them, in order, a scroll by one line in its direction and then a release of the middle
  -- button where the pointer is, and nothing else; the pointer stays, and so does the hub's mask.
  pub wheel-releases_middle :
      (kb : Keyboard) (ts : Turns) (mask : ModifierMask) (m : MacosEmit float)
      → ((e : Emit.Event float) → m.can_make e ≡ true)
      → let (mask', sent) = capture_run kb (raw_events ts) mask in
        (mask' ≡ mask)
        × (emit_all float sent m ≡ record m { posted = m.posted ++ posts_of ts m.last_pos })
  wheel-releases_middle kb [] mask m c = (
    unfold capture_run in refl,
    unfold capture_run emit_all in ap (λ l. record m { posted = l }) (sym (append-nil m.posted)),
  )
  wheel-releases_middle kb ((now, later, t) ∷ ts) mask m c =
      let two =
        line_of t ∷ Emit.mouse Emit.other_mouse_up m.last_pos.0 m.last_pos.1 Emit.center ∷ [] in
      let first = handle_button (button_of t) true ++ handle_button (button_of t) false in
      let rest = (capture_run kb (raw_events ts) mask).1 in
      let m1 = record m { posted = m.posted ++ two } in
      let (same, all) = wheel-releases_middle kb ts mask m1 c in
      (
        ap (λ (r : ModifierMask × List InputEvent). r.0) (captured kb now later t ts mask) ∙ same,
        ap (λ (r : ModifierMask × List InputEvent). emit_all float r.1 m)
              (captured kb now later t ts mask)
            ∙ emit_all-append first rest m
            ∙ ap (emit_all float rest) (notch t m c)
            ∙ all
            ∙ ap (λ l. record m { posted = l })
                (append_assoc m.posted two (posts_of ts m.last_pos)),
      )
