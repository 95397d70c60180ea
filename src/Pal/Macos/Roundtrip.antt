-- ===== src/Pal/Macos/Roundtrip.antt =====
-- The two tables of macOS are each other's inverse.
use borderless.Base.{ℕ, ◌≡◌, ◌↔◌, refl, Bool, true, false, Option, none, some, ◌==◌, ==_iff, arith}
use borderless.Pal.Arms.{all_arms, match_arms-passes}
use borderless.Pal.Macos.{hid_to_mac, mac_to_hid, mac_arms, mac_back}

-- Is it this number?
unfoldable is_it : ℕ → Option ℕ → Bool
is_it n none = false
is_it n (some m) = m == n

is_it-some : (n : ℕ) (o : Option ℕ) → is_it n o ≡ true → o ≡ some n
unfolding is_it
is_it-some n none h = cc
is_it-some n (some m) h = ground (arith, ==_iff m n)

arms_inverse : all_arms (λ hid kc. is_it hid (mac_to_hid kc)) mac_arms ≡ true
unfolding all_arms is_it mac_to_hid
arms_inverse = refl

back_inverse : all_arms (λ kc hid. is_it kc (hid_to_mac hid)) mac_back ≡ true
unfolding all_arms is_it hid_to_mac
back_inverse = refl

-- A usage has a key code exactly when that code has the usage: the tables lose no key and mix up none,
-- in either direction.
pub hid_to_mac-inverse : (hid kc : ℕ) → (hid_to_mac hid ≡ some kc) ↔ (mac_to_hid kc ≡ some hid)
unfolding hid_to_mac mac_to_hid
hid_to_mac-inverse hid kc = (
  (λ h.
      is_it-some hid (mac_to_hid kc)
        (match_arms-passes (λ hid kc. is_it hid (mac_to_hid kc)) mac_arms hid kc arms_inverse h)),
  (λ h.
      is_it-some kc (hid_to_mac hid)
        (match_arms-passes (λ kc hid. is_it kc (hid_to_mac hid)) mac_back kc hid back_inverse h)),
)
