-- ===== src/Pal/X11/Capture/Motion.antt =====
-- What a raw motion event says of the two axes of the pointer.
use borderless.Base.{
  ℕ, zero, suc, ◌+◌, ◌*◌, ◌^◌, ◌≤◌, ◌<◌, ◌≡◌, ◌&&◌, refl, ap, ◌∙◌, Option, none, some, List, [],
  ◌∷◌, ◌++◌, if◌then◌else◌, get_elem?, arith,
}
use borderless.Base.Int.{ℤ, pos, negsuc, pos_part, neg_part, ◌+ℤ◌, +ℤ_parts, eq_of_parts}
use borderless.Core.Input.{InputEvent}
use borderless.Pal.X11.Capture.{
  Fp3232, Axes, fp3232_to_i32, has_axis, push_axis, scan_bit, scan_word, scan_words, mask_iter,
  axis_delta, deltas, handle_motion, is_zero,
}

deltas-append : (xs ys : Axes) (d : ℤ × ℤ) → deltas (xs ++ ys) d ≡ deltas ys (deltas xs d)
unfolding deltas
deltas-append [] ys d = refl
deltas-append ((axis, v) ∷ xs) ys d = deltas-append xs ys (axis_delta axis v d)

-- What the axes found so far say of the pointer.
abbrev pointer : ℕ × Axes → ℤ × ℤ
pointer (i, out) = deltas out (pos 0, pos 0)

deltas-push_axis :
    (axis : ℕ) (o : Option Fp3232) (out : Axes)
    → 2 ≤ axis
    → deltas (push_axis axis o out) (pos 0, pos 0) ≡ deltas out (pos 0, pos 0)
unfolding push_axis
deltas-push_axis axis none out h = refl
deltas-push_axis axis (some v) out h =
    deltas-append out ((axis, v) ∷ []) (pos 0, pos 0) ∙ unfold deltas axis_delta in (ground arith)

pointer-scan_bit :
    (values : List Fp3232) (word word_idx bit : ℕ) (s : ℕ × Axes)
    → 2 ≤ word_idx * 32 + bit
    → pointer (scan_bit values word word_idx bit s) ≡ pointer s
unfolding scan_bit
pointer-scan_bit values word word_idx bit (i, out) h =
    let quiet = deltas-push_axis (word_idx * 32 + bit) (get_elem? values i) out h in
    ground (arith, quiet)

pointer-scan_word :
    (values : List Fp3232) (word word_idx turns bit : ℕ) (s : ℕ × Axes)
    → 2 ≤ word_idx * 32 + bit
    → pointer (scan_word values word word_idx turns bit s) ≡ pointer s
unfolding scan_word
pointer-scan_word values word word_idx zero bit s h = refl
pointer-scan_word values word word_idx (suc turns) bit s h =
    pointer-scan_word values word word_idx turns (bit + 1) (scan_bit values word word_idx bit s)
      (omega arith)
    ∙ pointer-scan_bit values word word_idx bit s h

pointer-scan_words :
    (values : List Fp3232) (words : List ℕ) (word_idx : ℕ) (s : ℕ × Axes)
    → 1 ≤ word_idx
    → pointer (scan_words values words word_idx s) ≡ pointer s
unfolding scan_words
pointer-scan_words values [] word_idx s h = refl
pointer-scan_words values (word ∷ words) word_idx s h =
    pointer-scan_words values words (word_idx + 1) (scan_word values word word_idx 32 0 s)
      (omega arith)
    ∙ pointer-scan_word values word word_idx 32 0 s (omega arith)

scan_word-two :
    (values : List Fp3232) (word turns : ℕ) (s : ℕ × Axes)
    → scan_word values word 0 (suc (suc turns)) 0 s
      ≡ scan_word values word 0 turns 2 (scan_bit values word 0 1 (scan_bit values word 0 0 s))
unfolding scan_word
scan_word-two values word turns s = refl

-- The whole part of a value, or nothing to move by where the event has none.
abbrev pub whole : Option Fp3232 → ℤ
whole none = pos 0
whole (some v) = v.integral

two_bits :
    (values : List Fp3232) (word : ℕ)
    → pointer (scan_bit values word 0 1 (scan_bit values word 0 0 (0, []))) ≡ (
      (if has_axis word 0 then whole (get_elem? values 0) else pos 0),
      (if has_axis word 1
          then whole (get_elem? values (if has_axis word 0 then 1 else 0))
          else pos 0),
    )
unfolding scan_bit push_axis deltas axis_delta fp3232_to_i32
two_bits values word = ground arith

-- A motion moves the pointer by the whole parts of the values of the axes 0 and 1, whatever other axes
-- the event has: the values stand in the order of the axes that are present, so that of axis 1 is the
-- second one if axis 0 is present, and the first one otherwise. An absent axis, or an axis for which
-- the event has no value, does not move it.
pub pointer-mask_iter :
    (word : ℕ) (words : List ℕ) (values : List Fp3232)
    → deltas (mask_iter (word ∷ words) values) (pos 0, pos 0) ≡ (
      (if has_axis word 0 then whole (get_elem? values 0) else pos 0),
      (if has_axis word 1
          then whole (get_elem? values (if has_axis word 0 then 1 else 0))
          else pos 0),
    )
unfolding mask_iter scan_words
pointer-mask_iter word words values =
    pointer-scan_words values words 1 (scan_word values word 0 32 0 (0, [])) (omega arith)
    ∙ ap pointer (scan_word-two values word 30 (0, []))
    ∙ pointer-scan_word values word 0 30 2
        (scan_bit values word 0 1 (scan_bit values word 0 0 (0, []))) (omega arith)
    ∙ two_bits values word

-- A captured motion is sent as one event, unless both of its whole parts are zero.
pub handle_motion_lem :
    (word : ℕ) (words : List ℕ) (values : List Fp3232) (now : ℕ)
    → handle_motion (word ∷ words) values now ≡ (
        let dx = if has_axis word 0 then whole (get_elem? values 0) else pos 0 in
        let dy =
          if has_axis word 1
          then whole (get_elem? values (if has_axis word 0 then 1 else 0))
          else pos 0 in
        if is_zero dx && is_zero dy then [] else InputEvent.mouse_move dx dy now ∷ [])
unfolding handle_motion
handle_motion_lem word words values now = rw (pointer-mask_iter word words values) refl

-- A motion by a fraction and the exact reverse of it, in either direction, do not cancel: what the two
-- move the pointer by is one unit to the left, or upwards on the other axis.
pub fp3232_to_i32_drifts :
    (v w : Fp3232)
    → 0 < v.frac
    → v.frac < 2 ^ 32
    → w.frac < 2 ^ 32
    → pos_part v.integral * 2 ^ 32 + v.frac + (pos_part w.integral * 2 ^ 32 + w.frac)
      ≡ (neg_part v.integral + neg_part w.integral) * 2 ^ 32
    → fp3232_to_i32 v +ℤ fp3232_to_i32 w ≡ negsuc 0
unfolding fp3232_to_i32
fp3232_to_i32_drifts v w p q r h = eq_of_parts _ _ (omega (arith, +ℤ_parts v.integral w.integral))
