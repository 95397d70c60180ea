-- ===== src/InputRouter/Modifier/Held.antt =====
-- The mask against the keys that are held, over any history of key events.
use Prim.Native.Nat.{bit_and}
use borderless.Base.{
  ℕ, ◌+◌, ◌-◌, ◌^◌, ◌<◌, ◌≡◌, refl, ap, ◌∙◌, Bool, true, false, not, ◌&&◌, none, List, [], ◌∷◌,
  arith, ◌==◌, leb, ltb, if◌then◌else◌, ltb→lt, all_below, all_below_sound, Bool-cases, inl, inr,
}
use borderless.Core.HidUsage.{HidUsage}
use borderless.Core.ModifierMask
use borderless.Core.ModifierMask.{ModifierMask}
use borderless.InputRouter.Modifier.{ModifierState, modifier_bit, update, new}

-- The eight modifier keys are the usages 0xe0 to 0xe7.
abbrev pub first_modifier : ℕ
first_modifier = 0xe0

abbrev pub is_modifier : HidUsage → Bool
is_modifier code = leb first_modifier code && ltb code (first_modifier + 8)

-- The bit of the `i`-th modifier key.
unfoldable pub has_bit : ModifierMask → ℕ → Bool
has_bit m i = not (bit_and m (2 ^ i) == 0)

abbrev pub iff : Bool → Bool → Bool
iff true b = b
iff false b = not b

iff_sound : (a b : Bool) → iff a b ≡ true → a ≡ b
iff_sound true b h = ground arith
iff_sound false b h = ground arith

-- One key event on a mask below 256, for each modifier key and each bit, by evaluation.
abbrev good : ℕ → ℕ → ℕ → Bool → Bool
good m i j pressed =
    let r = update (record { mask = m }) (first_modifier + i) pressed in
    iff (has_bit r.0.mask j) (if i == j then pressed else has_bit m j)
    && iff r.1 (not (iff (has_bit m i) pressed))
    && ltb r.0.mask 256

good_table :
    all_below 256 (λ m. all_below 8 (λ i. all_below 8 (λ j. good m i j true && good m i j false)))
    ≡ true
unfolding all_below update has_bit
good_table = refl

good_row : (m i j : ℕ) → m < 256 → i < 8 → j < 8 → (good m i j true && good m i j false) ≡ true
good_row m i j hm hi hj =
    all_below_sound _ 8 j (all_below_sound _ 8 i (all_below_sound _ 256 m good_table hm) hi) hj

good_at : (m i j : ℕ) (pressed : Bool) → m < 256 → i < 8 → j < 8 → good m i j pressed ≡ true
good_at m i j true hm hi hj = ground (arith, good_row m i j hm hi hj)
good_at m i j false hm hi hj = ground (arith, good_row m i j hm hi hj)

-- A code that is no modifier key.
modifier_bit-none : (code : HidUsage) → is_modifier code ≡ false → modifier_bit code ≡ none
unfolding modifier_bit
modifier_bit-none code h = ground arith

update-other :
    (s : ModifierState) (code : HidUsage) (pressed : Bool)
    → is_modifier code ≡ false
    → update s code pressed ≡ (s, false)
unfolding update
update-other s code pressed h = rw (modifier_bit-none code h, update) refl

all_three : (a b c : Bool) → (a && b && c) ≡ true → (a ≡ true) × (b ≡ true) × (c ≡ true)
all_three a b c h = ground arith

-- What the table says of one key event.
update_facts :
    (m i j : ℕ) (pressed : Bool)
    → m < 256
    → i < 8
    → j < 8
    → let r = update (record { mask = m }) (first_modifier + i) pressed in
      (has_bit r.0.mask j ≡ (if i == j then pressed else has_bit m j))
      × (r.1 ≡ not (iff (has_bit m i) pressed))
      × (r.0.mask < 256)
update_facts m i j pressed hm hi hj =
    let (bits, report, byte) = all_three _ _ _ (good_at m i j pressed hm hi hj) in
    (iff_sound _ _ bits, iff_sound _ _ report, ltb→lt _ _ byte)

index_of :
    (code : HidUsage) → is_modifier code ≡ true → (i : ℕ) × (code ≡ first_modifier + i) × (i < 8)
index_of code h = (code - first_modifier, ground arith, ground arith)

-- A key event sets or clears the bit of its own key and no other, and keeps the mask a byte.
pub update_bits :
    (s : ModifierState) (code : HidUsage) (pressed : Bool) (j : ℕ)
    → s.mask < 256
    → j < 8
    → (has_bit (update s code pressed).0.mask j
        ≡ (if code == first_modifier + j then pressed else has_bit s.mask j))
      × ((update s code pressed).0.mask < 256)
update_bits s code pressed j hm hj = elim (Bool-cases (is_modifier code)) [
  | inl key ↦
      let (i, e, hi) = index_of code key in
      let (bits, _, byte) = update_facts s.mask i j pressed hm hi hj in
      rw e (ground (arith, bits), byte)
  | inr other ↦ rw (update-other s code pressed other) (ground arith, hm)
]

-- The report is true exactly for a modifier key whose bit was not yet in the state of the event.
pub update_report :
    (s : ModifierState) (code : HidUsage) (pressed : Bool)
    → s.mask < 256
    → (update s code pressed).1
      ≡ (is_modifier code && not (iff (has_bit s.mask (code - first_modifier)) pressed))
update_report s code pressed hm = elim (Bool-cases (is_modifier code)) [
  | inl key ↦
      let e : first_modifier + (code - first_modifier) ≡ code = ground arith in
      let small : code - first_modifier < 8 = ground arith in
      let (_, report, _) = update_facts s.mask (code - first_modifier) _ pressed hm small small in
      rw key (ground (arith, report, e))
  | inr other ↦ rw (update-other s code pressed other) (ground arith)
]

-- A history of key events, oldest first.
abbrev pub Events : Type 0
Events = List (HidUsage × Bool)

unfoldable pub update_all : ModifierState → Events → ModifierState
update_all s [] = s
update_all s ((code, pressed) ∷ es) = update_all (update s code pressed).0 es

-- The last event of a key says whether it is held.
unfoldable pub is_held : HidUsage → Bool → Events → Bool
is_held key before [] = before
is_held key before ((code, pressed) ∷ es) = is_held key (if code == key then pressed else before) es

update_all-held :
    (es : Events) (s : ModifierState) (j : ℕ)
    → s.mask < 256
    → j < 8
    → has_bit (update_all s es).mask j ≡ is_held (first_modifier + j) (has_bit s.mask j) es
unfolding update_all is_held
update_all-held [] s j hm hj = refl
update_all-held ((code, pressed) ∷ es) s j hm hj =
    let (bits, byte) = update_bits s code pressed j hm hj in
    update_all-held es (update s code pressed).0 j byte hj
    ∙ ap (λ b. is_held (first_modifier + j) b es) bits

no_bits : all_below 8 (λ j. not (has_bit ModifierMask.empty j)) ≡ true
unfolding all_below has_bit
no_bits = refl

-- After any history of key events that starts with no key down, the mask has the bit of a modifier
-- key exactly when that key's last event was a press.
pub mask_is_held :
    (es : Events) (j : ℕ)
    → j < 8
    → has_bit (update_all new es).mask j ≡ is_held (first_modifier + j) false es
unfolding new
mask_is_held es j hj =
    update_all-held es new j (omega arith) hj
    ∙ ap (λ b. is_held (first_modifier + j) b es) (ground (arith, all_below_sound _ 8 j no_bits hj))
