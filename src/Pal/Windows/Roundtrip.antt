-- ===== src/Pal/Windows/Roundtrip.antt =====
-- From a usage to a virtual key and back.
use borderless.Base.{
  ℕ, ◌+◌, ◌-◌, ◌≡◌, inl, inr, refl, sym, ◌∙◌, ap, Bool, true, false, ◌||◌, Option, none, some, ◌==◌,
  ==_iff, if◌then◌else◌, Bool-cases, arith,
}
use borderless.Core.HidUsage
use borderless.Core.HidUsage.{HidUsage}
use borderless.Pal.Arms.{all_arms, match_arms-passes, within}
use borderless.Pal.Windows.{
  WinKey, index, letter_scancodes, digit_scancodes, special_win, special_vk, win_arms, hid_to_win,
  vk_to_hid,
}

-- The usages whose virtual key `vk_to_hid` does not know: the menu key and the keypad, but for Enter.
unfoldable pub is_one_way : HidUsage → Bool
unfolding within
is_one_way u = within HidUsage.kp_slash HidUsage.kp_period u || (u == HidUsage.application)

-- What the virtual key of a usage leads back to: the main Enter, for the one of the keypad; nothing, for
-- a one-way usage; and the usage itself, for any other.
unfoldable pub back : ℕ → Option ℕ
unfolding is_one_way
back u =
    if u == HidUsage.kp_enter then some HidUsage.enter else if is_one_way u then none else some u

abbrev same_usage : Option ℕ → Option ℕ → Bool
same_usage none none = true
same_usage none (some v) = false
same_usage (some u) none = false
same_usage (some u) (some v) = u == v

same_usage_sound : (o p : Option ℕ) → same_usage o p ≡ true → o ≡ p
same_usage_sound none none h = refl
same_usage_sound none (some v) h = cc
same_usage_sound (some u) none h = cc
same_usage_sound (some u) (some v) h = ground (arith, ==_iff u v)

-- A letter or a digit leads back to itself.
plain_back : (u : ℕ) → within 0x04 0x27 u ≡ true → some u ≡ back u
unfolding back within
plain_back u h = ground arith

arms_return : all_arms (λ u (k : WinKey). same_usage (vk_to_hid k.0) (back u)) win_arms ≡ true
unfolding all_arms back vk_to_hid special_vk within
arms_return = refl

letter_returns : (u : ℕ) → within 0x04 0x1D u ≡ true → vk_to_hid (0x41 + (u - 0x04)) ≡ some u
unfolding vk_to_hid within
letter_returns u h = ground arith

digit_returns :
    (u : ℕ)
    → within 0x1E 0x27 u ≡ true
    → vk_to_hid (if u == 0x27 then 0x30 else 0x31 + (u - 0x1E)) ≡ some u
unfolding vk_to_hid within
digit_returns u h = ground arith

letter_win :
    (u : ℕ)
    → within 0x04 0x1D u ≡ true
    → hid_to_win u ≡ some (0x41 + (u - 0x04), index letter_scancodes (u - 0x04), false)
unfolding hid_to_win
letter_win u w = rw (w, hid_to_win)

digit_win :
    (u : ℕ)
    → within 0x04 0x1D u ≡ false
    → within 0x1E 0x27 u ≡ true
    → hid_to_win u
      ≡ some
          ((if u == 0x27 then 0x30 else 0x31 + (u - 0x1E)), index digit_scancodes (u - 0x1E), false)
unfolding hid_to_win
digit_win u l d = rw (l, d, hid_to_win)

other_win :
    (u : ℕ) → within 0x04 0x1D u ≡ false → within 0x1E 0x27 u ≡ false → hid_to_win u ≡ special_win u
unfolding hid_to_win
other_win u l d = rw (l, d, hid_to_win)

letter_plain : (u : ℕ) → within 0x04 0x1D u ≡ true → within 0x04 0x27 u ≡ true
unfolding within
letter_plain u h = ground arith

digit_plain : (u : ℕ) → within 0x1E 0x27 u ≡ true → within 0x04 0x27 u ≡ true
unfolding within
digit_plain u h = ground arith

some_inj : {k l : WinKey} → some k ≡ some l → k ≡ l
some_inj h = cc

-- A usage that has a virtual key gets it back by that key, with two exceptions: the keypad and the menu
-- key get nothing, but for the keypad's Enter, which becomes the main Enter.
pub vk_to_hid-hid_to_win :
    (u vk scan : ℕ) (extended : Bool)
    → hid_to_win u ≡ some (vk, scan, extended)
    → vk_to_hid vk ≡ back u
unfolding special_win
vk_to_hid-hid_to_win u vk scan extended h = elim (Bool-cases (within 0x04 0x1D u)) [
  | inl l ↦
      ap (λ (k : WinKey). vk_to_hid k.0) (some_inj (sym h ∙ letter_win u l))
      ∙ letter_returns u l
      ∙ plain_back u (letter_plain u l)
  | inr l ↦ elim (Bool-cases (within 0x1E 0x27 u)) [
    | inl d ↦
        ap (λ (k : WinKey). vk_to_hid k.0) (some_inj (sym h ∙ digit_win u l d))
        ∙ digit_returns u d
        ∙ plain_back u (digit_plain u d)
    | inr d ↦ same_usage_sound (vk_to_hid vk) (back u) (
        match_arms-passes (λ u (k : WinKey). same_usage (vk_to_hid k.0) (back u)) win_arms u
          (vk, scan, extended) arms_return (sym (other_win u l d) ∙ h))
  ]
]
