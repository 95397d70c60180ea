-- ===== src/Pal/X11/Tests.antt =====
-- A keyboard of two keys, the left shift and `a`, and a server that takes every request.
use borderless.Base.{
  ℕ, ◌+◌, ◌-◌, ◌*◌, ◌≡◌, refl, ite, Bool, true, false, ◌&&◌, Option, none, some, List, [], ◌∷◌,
  ◌++◌, if◌then◌else◌, get_elem?, ℕ_discrete, Result, ok, arith,
}
use borderless.Base.Dict.{lookup}
use borderless.Base.Int.{ℤ, pos, negsuc}
use borderless.Core.HidUsage
use borderless.Core.Input.{InputEvent}
use borderless.Core.ModifierMask
use borderless.InputRouter.Modifier.Held.{has_bit, is_held, first_modifier}
use borderless.Pal.X11.{hid_to_keysym}
use borderless.Pal.X11.Roundtrip.{is_one_way}
use borderless.Pal.X11.Capture.{Event, Keyboard, update_modifiers}
use borderless.Pal.X11.Capture.Modifiers.{capture_run, keys, capture_run-held}
use borderless.Pal.X11.Capture.Worker
use borderless.Pal.X11.Capture.Restart
use borderless.Pal.X11.Capture.Restart.{Events, NoSink, received, restart_duplicates}
use borderless.Pal.X11.Emit.{EventType, FakeInput, Server, emit, build_keysym_table, unsigned_abs}
use borderless.Pal.X11.Emit.Plan.{plan, perform, emit-perform}
use borderless.Pal.X11.Emit.Table.{first_keycode, build_keysym_table-first}
use borderless.Pal.X11.Scrolls.{total_scroll, releases}
use borderless.Pal.X11.Loopback.{ComesBack, capture_actions, scroll-captured}
use borderless.Pal.X11.Loopback.Key.{key-captured}

abbrev keyboard : Keyboard
keyboard = record {
  keysyms = 0xffe1 ∷ 0xffe1 ∷ 0x61 ∷ 0x41 ∷ [];
  keysyms_per_keycode = 2;
  min_keycode = 8;
}

abbrev shift_a : List (ℕ × Event)
shift_a = (0, Event.raw_key_press 8) ∷ (1, Event.raw_key_press 9) ∷ []

abbrev shift_down : List InputEvent
shift_down = InputEvent.key HidUsage.lshift true 2 ∷ []

shift_a_sent :
    (capture_run keyboard shift_a ModifierMask.empty).1
    ≡ shift_down ++ (InputEvent.key HidUsage.key_a true 2 ∷ [])
unfolding capture_run borderless.Pal.X11.special_hid borderless.Base.Word.wrap_i32
    borderless.Base.Word.as_i32 borderless.Base.Int.◌-ℤ◌
shift_a_sent = refl

capture_run-held_example :
    has_bit 2 1
    ≡ is_held (first_modifier + 1) false (keys shift_down ++ ((HidUsage.key_a, true) ∷ []))
capture_run-held_example =
    capture_run-held keyboard shift_a shift_down HidUsage.key_a true 2 [] 1 shift_a_sent
      (omega arith)

abbrev started : Worker.X11Capture
started = (Worker.start true 4 Worker.new).0

started-runs : started.stop ≡ false
unfolding Worker.start Worker.new
started-runs = refl

started-NoSink : NoSink 5 started.workers
unfolding Worker.start Worker.new
started-NoSink = ((λ e. omega arith), tt)

abbrev typed : Events
typed = (0, Event.raw_key_press 9) ∷ (1, Event.raw_key_release 9) ∷ []

restart_duplicates_example :
    let c' = (Worker.start true 5 (Worker.stop started)).0 in
    received 4 (Restart.run keyboard typed c')
    ≡ ite
        (ℕ_discrete 4 5)
        (received 4 (Restart.run keyboard typed (Worker.start true 5 Worker.new).0))
        (received 4 (Restart.run keyboard typed started))
restart_duplicates_example =
    restart_duplicates keyboard typed started 5 4 started-runs started-NoSink

-- `A` is only there with shift.
build_keysym_table-first_example :
    lookup ℕ_discrete 0x41 (build_keysym_table keyboard.keysyms 2 8 9)
    ≡ first_keycode keyboard.keysyms 2 8 0x41 2 0
build_keysym_table-first_example =
    build_keysym_table-first keyboard.keysyms 2 8 9 0x41 (λ e. omega arith) (omega arith)
      (omega arith) (omega arith)

abbrev logging : Server
logging = record {
  Conn = List FakeInput;
  xtest_fake_input = λ r log. some (log ++ (r ∷ []));
  flush = λ log. some log;
}

emit-perform_example :
    emit logging [] (InputEvent.scroll (pos 0) (negsuc 1)) []
    ≡ perform logging (plan [] (InputEvent.scroll (pos 0) (negsuc 1))) []
emit-perform_example = emit-perform logging [] (InputEvent.scroll (pos 0) (negsuc 1)) []

abbrev back : FakeInput → Event
back r = elim r.type_ [
  | EventType.key_press ↦ Event.raw_key_press r.detail
  | EventType.key_release ↦ Event.raw_key_release r.detail
  | EventType.button_press ↦ Event.raw_button_press r.detail
  | EventType.button_release ↦ Event.raw_button_release r.detail
  | EventType.motion_notify ↦ Event.other
]

back-ComesBack : ComesBack back
back-ComesBack = record {
  key_pressed = λ k. refl;
  key_released = λ k. refl;
  pressed = λ k. refl;
  released = λ k. refl;
}

scroll-captured_example :
    let (m', sent) =
      capture_actions keyboard 0 back (plan [] (InputEvent.scroll (pos 1) (negsuc 2))) 4 in
    (m' ≡ 4)
    × (total_scroll sent ≡ (pos 1, negsuc 2))
    × (releases sent ≡ unsigned_abs (pos 1) + unsigned_abs (negsuc 2))
scroll-captured_example = scroll-captured keyboard 0 back back-ComesBack [] (pos 1) (negsuc 2) 4

key_a_keysym : hid_to_keysym HidUsage.key_a ≡ some 0x61
unfolding hid_to_keysym borderless.Pal.X11.alpha_to_keysym
key_a_keysym = refl

key_a_two_way : is_one_way HidUsage.key_a ≡ false
unfolding is_one_way
key_a_two_way = refl

key_a_first : first_keycode keyboard.keysyms 2 8 0x61 2 0 ≡ some 9
unfolding first_keycode
key_a_first = refl

key-captured_example :
    capture_actions keyboard 0 back
      (plan (build_keysym_table keyboard.keysyms 2 8 9) (InputEvent.key HidUsage.key_a true 0))
      2
    ≡ (let m' = update_modifiers HidUsage.key_a true 2 in
        (m', InputEvent.key HidUsage.key_a true m' ∷ []))
key-captured_example =
    key-captured keyboard 9 (omega arith) (omega arith) (omega arith) 0 back back-ComesBack
      HidUsage.key_a 0x61 9 true 0 2 key_a_keysym key_a_two_way key_a_first refl
