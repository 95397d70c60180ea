-- ===== src/Pal/Windows/Capture/Moves.antt =====
-- The captured moves against the positions of the pointer.
use borderless.Base.{
  ℕ, ◌^◌, ◌<◌, ◌≡◌, ◌⊎◌, inl, inr, refl, sym, ◌∙◌, ap, ap₂, some, List, [], ◌∷◌, ◌++◌, arith,
}
use borderless.Base.Int.{
  ℤ, pos, negsuc, pos_part, neg_part, ◌+ℤ◌, ◌-ℤ◌, +ℤ_parts, -ℤ_parts, eq_of_parts,
}
use borderless.Base.Word.{IsI32, wrap_i32, wrap_i32_fits}
use borderless.Core.Input.{InputEvent}
use borderless.Pal.Windows.Capture.{MouseMessage, MouseHook, Statics, move_from, hook_mouse}

abbrev pub Messages : Type 0
Messages = List (ℕ × MouseMessage × MouseHook)

-- What the mouse procedure sends for some messages.
unfoldable pub hook_run : Messages → Statics → Statics × List InputEvent
unfolding hook_mouse
hook_run [] g = (g, [])
hook_run ((now, message, m) ∷ ms) g =
    let (g, sent) = hook_mouse message m now g in
    let (g, later) = hook_run ms g in (g, sent ++ later)

-- A position moved by every motion of a list.
unfoldable pub moved : ℤ × ℤ → List InputEvent → ℤ × ℤ
moved p [] = p
moved (x, y) (InputEvent.mouse_move dx dy _ ∷ es) = moved (x +ℤ dx, y +ℤ dy) es
moved p (_ ∷ es) = moved p es

moved-append : (p : ℤ × ℤ) (xs ys : List InputEvent) → moved p (xs ++ ys) ≡ moved (moved p xs) ys
unfolding moved
moved-append p [] ys = refl
moved-append (x, y) (InputEvent.mouse_move dx dy ts ∷ xs) ys = moved-append (x +ℤ dx, y +ℤ dy) xs ys
moved-append p (InputEvent.mouse_abs x y i ∷ xs) ys = moved-append p xs ys
moved-append p (InputEvent.mouse_button b q ∷ xs) ys = moved-append p xs ys
moved-append p (InputEvent.scroll dx dy ∷ xs) ys = moved-append p xs ys
moved-append p (InputEvent.key c q m ∷ xs) ys = moved-append p xs ys
moved-append p (InputEvent.enter f m ∷ xs) ys = moved-append p xs ys
moved-append p (InputEvent.leave t ∷ xs) ys = moved-append p xs ys

-- A coordinate of less than half the range, so that a difference of two fits.
pub record IsNear (z : ℤ) : Type 0 where
  pub above : neg_part z < 2 ^ 30
  pub below : pos_part z < 2 ^ 30

parts_cover : (z : ℤ) → (pos_part z ≡ 0) ⊎ (neg_part z ≡ 0)
parts_cover (pos n) = inr refl
parts_cover (negsuc n) = inl refl

difference-IsI32 : (p x : ℤ) → IsNear p → IsNear x → IsI32 (x -ℤ p)
unfolding ◌-ℤ◌
difference-IsI32 p x hp hx = ground arith

move_back : (p x : ℤ) → IsNear p → IsNear x → p +ℤ wrap_i32 (x -ℤ p) ≡ x
move_back p x hp hx =
    rw (wrap_i32_fits (x -ℤ p) (difference-IsI32 p x hp hx))
      (eq_of_parts _ _ (omega (arith, +ℤ_parts p (x -ℤ p), -ℤ_parts x p)))

abbrev IsNearPoint : ℤ × ℤ → Type 0
IsNearPoint (x, y) = IsNear x × IsNear y

abbrev AllNear : Messages → Type 0
AllNear [] = Unit {0}
AllNear ((now, message, m) ∷ ms) = IsNearPoint (m.x, m.y) × AllNear ms

-- The last position is known, and is where the motions that were sent lead from a start.
abbrev Follows : ℤ × ℤ → Statics → Type 0
Follows p g = (g.last_mouse ≡ some p) × IsNearPoint p

hook_mouse-Follows :
    (now : ℕ) (message : MouseMessage) (m : MouseHook) (g : Statics) (p : ℤ × ℤ)
    → IsNearPoint (m.x, m.y)
    → Follows p g
    → let (g', sent) = hook_mouse message m now g in Follows (moved p sent) g'
unfolding hook_mouse moved move_from
hook_mouse-Follows now MouseMessage.mousemove m g (px, py) (hx, hy) (last, (kx, ky)) =
    rw (last, move_from)
      (
        ap some (sym (ap₂ (λ a b. (a, b)) (move_back px m.x kx hx) (move_back py m.y ky hy))),
        (rw (move_back px m.x kx hx) hx, rw (move_back py m.y ky hy) hy),
      )
hook_mouse-Follows now MouseMessage.lbuttondown m g p h f = f
hook_mouse-Follows now MouseMessage.lbuttonup m g p h f = f
hook_mouse-Follows now MouseMessage.rbuttondown m g p h f = f
hook_mouse-Follows now MouseMessage.rbuttonup m g p h f = f
hook_mouse-Follows now MouseMessage.mbuttondown m g p h f = f
hook_mouse-Follows now MouseMessage.mbuttonup m g p h f = f
hook_mouse-Follows now MouseMessage.xbuttondown m g p h f = f
hook_mouse-Follows now MouseMessage.xbuttonup m g p h f = f
hook_mouse-Follows now MouseMessage.mousewheel m g p h f = f
hook_mouse-Follows now MouseMessage.unknown m g p h f = f

-- The motions that a capture sends add up to the way of the pointer: whatever messages come, applying
-- all of them to the position that the capture last saw gives the position that it saw in the end.
-- All coordinates are below 2 ^ 30 in size, so that no difference wraps.
pub hook_run-moved :
    (ms : Messages) (g : Statics) (p : ℤ × ℤ)
    → AllNear ms
    → IsNearPoint p
    → g.last_mouse ≡ some p
    → (hook_run ms g).0.last_mouse ≡ some (moved p (hook_run ms g).1)
unfolding hook_run moved
hook_run-moved [] g p near hp last = last
hook_run-moved ((now, message, m) ∷ ms) g p (near, nears) hp last =
    let (g', sent) = hook_mouse message m now g in
    let (last', hp') = hook_mouse-Follows now message m g p near (last, hp) in
    hook_run-moved ms g' (moved p sent) nears hp' last'
    ∙ ap some (sym (moved-append p sent (hook_run ms g').1))
