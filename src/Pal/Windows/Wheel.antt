-- ===== src/Pal/Windows/Wheel.antt =====
-- The wheel, from the emitter to the capture and by itself.
use borderless.Base.{
  ℕ, ◌/◌, ◌%◌, ◌^◌, ◌<◌, ◌≤◌, ◌≡◌, refl, ◌∙◌, ap, Bool, true, false, ◌==◌, ==_iff, all_below,
  all_below_sound, arith,
}
use borderless.Base.Int.{ℤ, pos, negsuc, pos_part, neg_part, negate, quotient}
use borderless.Base.Word.{pattern_of, wrap_i32, as_i16}
use borderless.Pal.Windows.Capture.{wheel_dy}
use borderless.Pal.Windows.Emit.{wheel_data}

-- The number of notches in the upper half of what the hook is given.
abbrev notches : ℕ → ℤ
notches half = negate (quotient (as_i16 (pos half)) 120)

-- What the emitter hands over for a scroll, as far as the hook sees it.
abbrev handed_over : ℤ → ℕ
handed_over dy = pattern_of (2 ^ 32) (wheel_data dy) % 2 ^ 16

abbrev is_pos : ℕ → ℤ → Bool
is_pos n (pos m) = m == n
is_pos n (negsuc m) = false

abbrev is_negsuc : ℕ → ℤ → Bool
is_negsuc n (pos m) = false
is_negsuc n (negsuc m) = m == n

is_pos_sound : (n : ℕ) (z : ℤ) → is_pos n z ≡ true → z ≡ pos n
is_pos_sound n (pos m) h = ap pos ((==_iff m n).0 h)
is_pos_sound n (negsuc m) h = absurd (cc)

is_negsuc_sound : (n : ℕ) (z : ℤ) → is_negsuc n z ≡ true → z ≡ negsuc n
is_negsuc_sound n (pos m) h = absurd (cc)
is_negsuc_sound n (negsuc m) h = ap negsuc ((==_iff m n).0 h)

downwards : all_below 274 (λ n. is_pos n (notches (handed_over (pos n)))) ≡ true
unfolding all_below wheel_data wrap_i32 as_i16
downwards = refl

upwards : all_below 273 (λ n. is_negsuc n (notches (handed_over (negsuc n)))) ≡ true
unfolding all_below wheel_data wrap_i32 as_i16
upwards = refl

-- A vertical scroll of at most 273 units either way is captured as it was emitted. What the hook is
-- given carries in its upper half the lower 16 bits of what the emitter handed over.
pub wheel_dy-wheel_data :
    (dy : ℤ) (mouse_data : ℕ)
    → pos_part dy ≤ 273
    → neg_part dy ≤ 273
    → mouse_data / 2 ^ 16 ≡ pattern_of (2 ^ 32) (wheel_data dy) % 2 ^ 16
    → wheel_dy mouse_data ≡ dy
unfolding wheel_dy
wheel_dy-wheel_data (pos n) mouse_data p q h =
    ap notches h ∙ is_pos_sound n _ (all_below_sound _ 274 n downwards (omega arith))
wheel_dy-wheel_data (negsuc n) mouse_data p q h =
    ap notches h ∙ is_negsuc_sound n _ (all_below_sound _ 273 n upwards (omega arith))

small_up : all_below 120 (λ n. is_pos 0 (notches (pattern_of (2 ^ 16) (pos n)))) ≡ true
unfolding all_below as_i16
small_up = refl

small_down : all_below 119 (λ n. is_pos 0 (notches (pattern_of (2 ^ 16) (negsuc n)))) ≡ true
unfolding all_below as_i16
small_down = refl

-- A turn of the wheel by less than a notch, 120, is captured as no scroll at all.
pub wheel_dy-fine :
    (d : ℤ) (mouse_data : ℕ)
    → pos_part d < 120
    → neg_part d < 120
    → mouse_data / 2 ^ 16 ≡ pattern_of (2 ^ 16) d
    → wheel_dy mouse_data ≡ pos 0
unfolding wheel_dy
wheel_dy-fine (pos n) mouse_data p q h =
    ap notches h ∙ is_pos_sound 0 _ (all_below_sound _ 120 n small_up p)
wheel_dy-fine (negsuc n) mouse_data p q h =
    ap notches h ∙ is_pos_sound 0 _ (all_below_sound _ 119 n small_down (omega arith))
