-- ===== src/Pal/X11/Roundtrip.antt =====
-- From a usage to a keysym and back, and the other way round.
use borderless.Base.{
  ℕ, ◌≡◌, ◌⊎◌, inl, inr, refl, Bool, true, ◌||◌, Option, none, some, ◌==◌, ==_iff, arith,
}
use borderless.Core.HidUsage
use borderless.Core.HidUsage.{HidUsage}
use borderless.Pal.Arms.{or_else, or_else-some, within, all_arms, match_arms-passes}
use borderless.Pal.X11.{
  special_keysym, special_hid, within, alpha_to_keysym, digit_to_keysym, hid_to_keysym,
  keysym_to_hid, keysym_arms,
}

-- The usages with a keysym that `keysym_to_hid` does not know: print screen, scroll lock and pause, the
-- keypad, the menu key, and F13 to F24.
unfoldable pub is_one_way : HidUsage → Bool
unfolding within
is_one_way u =
    within HidUsage.print_screen HidUsage.pause u
    || within HidUsage.kp_slash HidUsage.kp_period u
    || (u == HidUsage.application)
    || within HidUsage.f13 HidUsage.f24 u

-- Does the keysym lead back to the usage, or nowhere if the usage is one-way?
unfoldable returns : ℕ → Option ℕ → Bool
unfolding is_one_way
returns u none = is_one_way u
returns u (some v) = (v == u)

returns-or :
    (u : ℕ) (o : Option ℕ)
    → returns u o ≡ true
    → (o ≡ some u) ⊎ ((o ≡ none) × (is_one_way u ≡ true))
unfolding returns
returns-or u none h = inr (refl, h)
returns-or u (some v) h = inl (ground (arith, ==_iff v u))

arms_return : all_arms (λ u k. returns u (keysym_to_hid k)) keysym_arms ≡ true
unfolding all_arms returns keysym_to_hid special_hid within
arms_return = refl

alpha_returns : (u k : ℕ) → alpha_to_keysym u ≡ some k → keysym_to_hid k ≡ some u
unfolding alpha_to_keysym keysym_to_hid within
alpha_returns u k h = ground arith

digit_returns : (u k : ℕ) → digit_to_keysym u ≡ some k → keysym_to_hid k ≡ some u
unfolding digit_to_keysym keysym_to_hid within
digit_returns u k h = ground arith

-- A usage that has a keysym gets it back by that keysym, unless it is one of the one-way usages: those
-- get none, so that a capture drops the key. No keysym leads to the usage of another key.
pub hid_to_keysym-returns :
    (u k : ℕ)
    → hid_to_keysym u ≡ some k
    → (keysym_to_hid k ≡ some u) ⊎ ((keysym_to_hid k ≡ none) × (is_one_way u ≡ true))
unfolding hid_to_keysym special_keysym
hid_to_keysym-returns u k h =
    elim (or_else-some (alpha_to_keysym u) (or_else (digit_to_keysym u) (special_keysym u)) k h) [
      | inl e ↦ inl (alpha_returns u k e)
      | inr r ↦ elim (or_else-some (digit_to_keysym u) (special_keysym u) k r) [
        | inl e ↦ inl (digit_returns u k e)
        | inr e ↦
            returns-or u (keysym_to_hid k)
              (match_arms-passes (λ u k. returns u (keysym_to_hid k)) keysym_arms u k arms_return e)
      ]
    ]
