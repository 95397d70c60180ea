-- ===== src/Pal/X11/Loopback/Key.antt =====
-- A key, from the emitter to a capture on the same server.
use borderless.Base.{
  ℕ, ◌+◌, ◌-◌, ◌*◌, ◌^◌, ◌<◌, ◌≤◌, ◌≡◌, ◌≢◌, refl, ◌∙◌, Bool, true, false, Option, none, some, [],
  ◌∷◌, get_elem?, arith, inl, inr,
}
use borderless.Base.Dict.{Dict}
use borderless.Base.Int.{pos, ◌-ℤ◌}
use borderless.Base.Word.{as_i32, wrap_i32}
use borderless.Core.Input.{InputEvent}
use borderless.Core.ModifierMask.{ModifierMask}
use borderless.Pal.X11.{hid_to_keysym, keysym_to_hid}
use borderless.Pal.X11.Roundtrip.{is_one_way, hid_to_keysym-returns}
use borderless.Pal.X11.Capture.{
  Keyboard, Event, base_keysym, key_usage, handle_key, update_modifiers, dispatch_event,
}
use borderless.Pal.X11.Emit.{FakeInput, build_keysym_table, hid_to_keycode}
use borderless.Pal.X11.Emit.Plan.{plan, key_plan}
use borderless.Pal.X11.Emit.Table.{first_keycode, first_keycode-range, build_keysym_table-first}
use borderless.Pal.X11.Loopback.{ComesBack, capture_actions}

base_keysym_lem :
    (kb : Keyboard) (keycode : ℕ)
    → kb.min_keycode ≤ keycode
    → keycode < 2 ^ 8
    → base_keysym kb keycode
      ≡ get_elem? kb.keysyms ((keycode - kb.min_keycode) * kb.keysyms_per_keycode)
unfolding base_keysym as_i32 wrap_i32 ◌-ℤ◌
base_keysym_lem kb keycode low high =
    let e : wrap_i32 (as_i32 keycode -ℤ pos kb.min_keycode) ≡ pos (keycode - kb.min_keycode) =
      ground arith in
    rw (e, base_keysym) refl

no_keysym_zero : keysym_to_hid 0 ≡ none
unfolding keysym_to_hid borderless.Pal.X11.special_hid
no_keysym_zero = refl

keysym_back :
    (code s : ℕ)
    → hid_to_keysym code ≡ some s
    → is_one_way code ≡ false
    → keysym_to_hid s ≡ some code
keysym_back code s h two_way = elim (hid_to_keysym-returns code s h) [
  | inl e ↦ e
  | inr (_, one_way) ↦ absurd (cc)
]

keysym-ne_zero : (code s : ℕ) → keysym_to_hid s ≡ some code → s ≢ 0
keysym-ne_zero code s h e = cc (no_keysym_zero)

module _ (kb : Keyboard) (max_kc : ℕ) (low : 0 < kb.min_keycode) (le : kb.min_keycode ≤ max_kc)
    (high : max_kc < 2 ^ 8) where
  -- The emitter's table for the keyboard.
  abbrev table : Dict ℕ ℕ
  table = build_keysym_table kb.keysyms kb.keysyms_per_keycode kb.min_keycode max_kc

  abbrev first_of : ℕ → Option ℕ
  first_of s =
      first_keycode kb.keysyms kb.keysyms_per_keycode kb.min_keycode s (max_kc - kb.min_keycode + 1)
        0

  hid_to_keycode_lem :
      (code s keycode : ℕ)
      → hid_to_keysym code ≡ some s
      → s ≢ 0
      → first_of s ≡ some keycode
      → hid_to_keycode table code ≡ some keycode
  unfolding hid_to_keycode
  hid_to_keycode_lem code s keycode h ne first =
      rw (h, hid_to_keycode)
        (build_keysym_table-first kb.keysyms kb.keysyms_per_keycode kb.min_keycode max_kc s ne low
            le high
          ∙ first)

  key_usage_lem :
      (code s keycode : ℕ)
      → keysym_to_hid s ≡ some code
      → first_of s ≡ some keycode
      → get_elem? kb.keysyms ((keycode - kb.min_keycode) * kb.keysyms_per_keycode) ≡ some s
      → key_usage kb keycode ≡ some code
  unfolding key_usage
  key_usage_lem code s keycode h first column =
      let (above, below) =
        first_keycode-range kb.keysyms kb.keysyms_per_keycode kb.min_keycode s
          (max_kc - kb.min_keycode + 1) 0 keycode first in
      rw (base_keysym_lem kb keycode (omega arith) (omega arith) ∙ column, key_usage) h

  -- A key that is emitted is captured as the same key with the capture's own modifiers, if the
  -- keysym of its usage leads back to a usage and the first keycode with this keysym has it
  -- unshifted. The keycodes of the keyboard are numbers of a byte above 0.
  pub key-captured :
      (now : ℕ) (back : FakeInput → Event) (b : ComesBack back) (code s keycode : ℕ)
      (pressed : Bool) (mods m : ModifierMask)
      → hid_to_keysym code ≡ some s
      → is_one_way code ≡ false
      → first_of s ≡ some keycode
      → get_elem? kb.keysyms ((keycode - kb.min_keycode) * kb.keysyms_per_keycode) ≡ some s
      → capture_actions kb now back (plan table (InputEvent.key code pressed mods)) m
        ≡ (let m' = update_modifiers code pressed m in (m', InputEvent.key code pressed m' ∷ []))
  unfolding plan key_plan capture_actions dispatch_event handle_key
  key-captured now back b code s keycode true mods m h two_way first column =
      let e = keysym_back code s h two_way in
      rw (hid_to_keycode_lem code s keycode h (keysym-ne_zero code s e) first, key_plan)
        (rw (b.key_pressed keycode)
          (rw (key_usage_lem code s keycode e first column, handle_key) refl))
  key-captured now back b code s keycode false mods m h two_way first column =
      let e = keysym_back code s h two_way in
      rw (hid_to_keycode_lem code s keycode h (keysym-ne_zero code s e) first, key_plan)
        (rw (b.key_released keycode)
          (rw (key_usage_lem code s keycode e first column, handle_key) refl))
