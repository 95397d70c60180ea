-- ===== src/Base/Word.antt =====
-- Rust's `u32` and `i32` arithmetic as numbers and integers with the wrap-around written out. An
-- `i32` is the integer that it stands for; the release profile of `Cargo.toml` leaves the overflow
-- checks off, so `+`, `-` and `*` wrap.
use Prim.Native.Nat.{ℕ, ◌+◌, ◌-◌, ◌%◌, ◌^◌, ◌≤◌, ◌<◌}
use mathlib.Core.Path.{◌≡◌}
use native.Mathlib.Omega.{arith}
use borderless.Base.Tests.{ltb, if◌then◌else◌}
use borderless.Base.Int.{ℤ, pos, negsuc, pos_part, neg_part}

-- The integer that a bit pattern of `w` bits stands for, with `2 ^ (w - 1)` given as `half`.
abbrev pub signed : ℕ → ℕ → ℤ
signed half w = if ltb w half then pos w else negsuc (half + half - w - 1)

-- The bit pattern of an integer, modulo `m`.
abbrev pub pattern_of : ℕ → ℤ → ℕ
pattern_of m (pos n) = n % m
pattern_of m (negsuc n) = m - 1 - n % m

-- `u as i32`, and the wrapped result of an `i32` operation.
unfoldable pub as_i32 : ℕ → ℤ
as_i32 n = signed (2 ^ 31) (n % 2 ^ 32)

unfoldable pub wrap_i32 : ℤ → ℤ
wrap_i32 z = signed (2 ^ 31) (pattern_of (2 ^ 32) z)

-- `z as i16`
unfoldable pub as_i16 : ℤ → ℤ
as_i16 z = signed (2 ^ 15) (pattern_of (2 ^ 16) z)

pub record IsI32 (z : ℤ) : Type 0 where
  pub above : neg_part z ≤ 2 ^ 31
  pub below : pos_part z < 2 ^ 31

pub wrap_i32-IsI32 : (z : ℤ) → IsI32 (wrap_i32 z)
unfolding wrap_i32
wrap_i32-IsI32 z = ground arith

pub as_i32-IsI32 : (n : ℕ) → IsI32 (as_i32 n)
unfolding as_i32
as_i32-IsI32 n = ground arith

-- An integer that fits is its own wrapped value.
pub wrap_i32_fits : (z : ℤ) → IsI32 z → wrap_i32 z ≡ z
unfolding wrap_i32
wrap_i32_fits z h = ground arith

pub as_i32_fits : (n : ℕ) → n < 2 ^ 31 → as_i32 n ≡ pos n
unfolding as_i32
as_i32_fits n h = ground arith
