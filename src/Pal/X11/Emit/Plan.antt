-- ===== src/Pal/X11/Emit/Plan.antt =====
-- What the emitter asks of the server for one event: a list, whatever the server answers.
use Prim.Native.String.{String}
use mathlib.Core.Path.{fun_ext}
use borderless.Base.{
  ℕ, zero, suc, ◌≡◌, refl, sym, Bool, Option, none, some, List, [], ◌∷◌, ◌++◌, Result, ok, ◌>>=◌,
  or_fail, arith, Option-cases, Result-cases, inl, inr,
}
use borderless.Base.Word.{as_i16}
use borderless.Core.Input.{InputEvent}
use borderless.Pal.Traits.{PalError}
use borderless.Pal.X11.Emit.{
  EventType, FakeInput, Server, KeysymTable, press, button_type, key_type, unsigned_abs, by_sign,
  button_to_code, hid_to_keycode, send, click, clicks, scroll, emit_key, emit,
}

pub data Action : Type 0 where
  request : FakeInput → PalError → Action
  flush : Action

abbrev pub alone : FakeInput → String → List Action
alone r text = request r (PalError.backend text) ∷ flush ∷ []

abbrev pub one_click : ℕ → List Action
one_click code =
    request (press EventType.button_press code) (PalError.backend "xtest scroll press")
    ∷ request (press EventType.button_release code) (PalError.backend "xtest scroll release")
    ∷ flush
    ∷ []

unfoldable pub ticks : ℕ → ℕ → List Action
ticks code zero = []
ticks code (suc times) = one_click code ++ ticks code times

unfoldable pub key_plan : Option ℕ → Bool → List Action
key_plan none pressed = []
key_plan (some keycode) pressed = alone (press (key_type pressed) keycode) "xtest key"

unfoldable pub plan : KeysymTable → InputEvent → List Action
unfolding ticks key_plan hid_to_keycode button_to_code
plan table (InputEvent.mouse_move dx dy _) =
    alone (record { type_ = EventType.motion_notify; detail = 1; x = as_i16 dx; y = as_i16 dy })
      "xtest motion"
plan table (InputEvent.mouse_abs x y _) =
    alone (record { type_ = EventType.motion_notify; detail = 0; x = as_i16 x; y = as_i16 y })
      "xtest abs motion"
plan table (InputEvent.mouse_button btn pressed) =
    alone (press (button_type pressed) (button_to_code btn)) "xtest button"
plan table (InputEvent.scroll dx dy) =
    ticks (by_sign dy 4 5) (unsigned_abs dy) ++ ticks (by_sign dx 6 7) (unsigned_abs dx)
plan table (InputEvent.key code pressed _) = key_plan (hid_to_keycode table code) pressed
plan table (InputEvent.enter _ _) = []
plan table (InputEvent.leave _) = []

module _ (server : Server) where
  open server use {Conn}

  unfoldable pub act : Action → Conn → Result PalError Conn
  act (request r error) conn = or_fail (server.xtest_fake_input r conn) error
  act flush conn = or_fail (server.flush conn) (PalError.backend "flush")

  -- The actions in order, up to the first that fails.
  unfoldable pub perform : List Action → Conn → Result PalError Conn
  unfolding act
  perform [] conn = ok conn
  perform (a ∷ actions) conn = do conn ← act a conn; perform actions conn

  perform-append :
      (xs ys : List Action) (conn : Conn)
      → perform (xs ++ ys) conn ≡ (perform xs conn >>= perform ys)
  unfolding perform
  perform-append [] ys conn = refl
  perform-append (a ∷ xs) ys conn = elim (Result-cases (act a conn)) [
    | inl (e, h) ↦ rw h refl
    | inr (c, h) ↦ rw h (perform-append xs ys c)
  ]

  click-perform : (code : ℕ) (conn : Conn) → click server code conn ≡ perform (one_click code) conn
  unfolding click perform act
  click-perform code conn = ground arith

  clicks-perform :
      (code times : ℕ) (conn : Conn)
      → clicks server code times conn ≡ perform (ticks code times) conn
  unfolding clicks perform ticks
  clicks-perform code zero conn = refl
  clicks-perform code (suc times) conn = rw (click-perform code conn) (
      rw (fun_ext (clicks-perform code times))
        (sym (perform-append (one_click code) (ticks code times) conn)))

  send-perform :
      (r : FakeInput) (text : String) (conn : Conn)
      → send server r (PalError.backend text) conn ≡ perform (alone r text) conn
  unfolding send perform act
  send-perform r text conn = ground arith

  -- Emitting an event makes the requests of its plan, in order, and stops with the error of the first
  -- one that the server refuses: one request and a flush for a motion, a button or a key, none for a
  -- key without a keycode or for a crossing, and for a scroll a press, a release and a flush for each
  -- unit, the vertical ones first.
  pub emit-perform :
      (table : KeysymTable) (ev : InputEvent) (conn : Conn)
      → emit server table ev conn ≡ perform (plan table ev) conn
  unfolding emit plan emit_key key_plan scroll
  emit-perform table (InputEvent.mouse_move dx dy ts) conn = send-perform _ "xtest motion" conn
  emit-perform table (InputEvent.mouse_abs x y i) conn = send-perform _ "xtest abs motion" conn
  emit-perform table (InputEvent.mouse_button btn pressed) conn = send-perform _ "xtest button" conn
  emit-perform table (InputEvent.scroll dx dy) conn =
      rw (clicks-perform (by_sign dy 4 5) (unsigned_abs dy) conn) (
        rw (fun_ext (clicks-perform (by_sign dx 6 7) (unsigned_abs dx))) (
          sym (
            perform-append (ticks (by_sign dy 4 5) (unsigned_abs dy))
              (ticks (by_sign dx 6 7) (unsigned_abs dx)) conn)))
  emit-perform table (InputEvent.key code pressed mods) conn =
      elim (Option-cases (hid_to_keycode table code)) [
        | inl e ↦ rw (e, emit_key) (unfold perform in refl)
        | inr (k, e) ↦ rw (e, emit_key) (send-perform _ "xtest key" conn)
      ]
  emit-perform table (InputEvent.enter f m) conn = unfold perform in refl
  emit-perform table (InputEvent.leave t) conn = unfold perform in refl
