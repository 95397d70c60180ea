-- ===== src/Pal/X11/Scrolls.antt =====
-- Lists of captured scrolls: what they add up to, and the ticks of a wheel button.
use borderless.Base.{ℕ, zero, suc, ◌+◌, ◌≡◌, refl, ap, false, List, [], ◌∷◌, ◌++◌, arith}
use borderless.Base.Int.{ℤ, pos, negsuc, pos_part, neg_part, ◌+ℤ◌, +ℤ_parts, eq_of_parts}
use borderless.Core.Input.{Button, InputEvent}
use borderless.Pal.X11.Emit.{unsigned_abs}

-- The sum of the scrolls of a list, and the number of its released buttons.
unfoldable pub total_scroll : List InputEvent → ℤ × ℤ
total_scroll [] = (pos 0, pos 0)
total_scroll (InputEvent.scroll dx dy ∷ es) = let (x, y) = total_scroll es in (dx +ℤ x, dy +ℤ y)
total_scroll (_ ∷ es) = total_scroll es

unfoldable pub releases : List InputEvent → ℕ
releases [] = 0
releases (InputEvent.mouse_button btn false ∷ es) = suc (releases es)
releases (_ ∷ es) = releases es

-- What so many ticks of a wheel button come back as.
unfoldable pub wheel : ℤ → ℤ → ℕ → ℕ → List InputEvent
wheel dx dy code zero = []
wheel dx dy code (suc times) =
    InputEvent.scroll dx dy
    ∷ InputEvent.mouse_button (Button.other code) false
    ∷ wheel dx dy code times

-- A number added so many times.
unfoldable pub add_times : ℤ → ℕ → ℤ → ℤ
add_times d zero z = z
add_times d (suc n) z = d +ℤ add_times d n z

pub add_times-zero : (n : ℕ) (z : ℤ) → add_times (pos 0) n z ≡ z
unfolding add_times
add_times-zero zero z = refl
add_times-zero (suc n) z = eq_of_parts _ _ (
    omega (
      arith,
      ap pos_part (add_times-zero n z),
      ap neg_part (add_times-zero n z),
      +ℤ_parts (pos 0) (add_times (pos 0) n z),
    ))

add_times-one : (n : ℕ) → add_times (pos 1) n (pos 0) ≡ pos n
unfolding add_times ◌+ℤ◌
add_times-one zero = refl
add_times-one (suc n) = rw (add_times-one n) (ground arith)

add_times-minus_one : (n : ℕ) → add_times (negsuc 0) (suc n) (pos 0) ≡ negsuc n
unfolding add_times ◌+ℤ◌
add_times-minus_one zero = refl
add_times-minus_one (suc n) = rw (add_times-minus_one n) (ground arith)

pub total_scroll-wheel :
    (dx dy : ℤ) (code times : ℕ) (rest : List InputEvent)
    → total_scroll (wheel dx dy code times ++ rest)
      ≡ (add_times dx times (total_scroll rest).0, add_times dy times (total_scroll rest).1)
unfolding total_scroll wheel add_times
total_scroll-wheel dx dy code zero rest = refl
total_scroll-wheel dx dy code (suc times) rest = rw (total_scroll-wheel dx dy code times rest) refl

pub releases-wheel :
    (dx dy : ℤ) (code times : ℕ) (rest : List InputEvent)
    → releases (wheel dx dy code times ++ rest) ≡ times + releases rest
unfolding releases wheel
releases-wheel dx dy code zero rest = omega arith
releases-wheel dx dy code (suc times) rest = omega (arith, releases-wheel dx dy code times rest)

pub none_released : releases [] ≡ 0
unfolding releases
none_released = refl

-- The scroll of one tick.
abbrev pub unit_of : ℤ → ℤ
unit_of (pos _) = pos 1
unit_of (negsuc _) = negsuc 0

pub add_times-unit_of : (z : ℤ) → add_times (unit_of z) (unsigned_abs z) (pos 0) ≡ z
add_times-unit_of (pos n) = let e : n + 0 ≡ n = omega arith in rw e (add_times-one n)
add_times-unit_of (negsuc n) =
    let e : 0 + suc n ≡ suc n = omega arith in rw e (add_times-minus_one n)
