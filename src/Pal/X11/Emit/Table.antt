-- ===== src/Pal/X11/Emit/Table.antt =====
-- The table from keysyms to keycodes against a search through the keyboard mapping.
use borderless.Base.{
  ℕ, zero, suc, ◌+◌, ◌-◌, ◌*◌, ◌%◌, ◌^◌, ◌<◌, ◌≤◌, ◌≡◌, ◌≢◌, Bool, false, ◌||◌, Option, none, some,
  List, [], ◌==◌, ==_iff, if◌then◌else◌, get_elem?, ℕ_discrete, arith, Bool-cases, inl, inr,
  Option-cases,
}
use borderless.Base.Dict.{lookup, lookup-insert}
use borderless.Pal.Arms.{or_else}
use borderless.Pal.X11.Emit.{
  KeysymTable, or_insert, add_column, add_columns, add_keycodes, keycode_count, build_keysym_table,
}

-- Does the mapping have the keysym at an index?
unfoldable pub has_keysym : List ℕ → ℕ → ℕ → Bool
has_keysym keysyms sym index = elim (get_elem? keysyms index) [ none ↦ false | some s ↦ s == sym ]

-- Is the keysym in one of so many columns from an index on?
unfoldable pub in_columns : List ℕ → ℕ → ℕ → ℕ → Bool
unfolding has_keysym
in_columns keysyms sym zero index = false
in_columns keysyms sym (suc columns) index =
    has_keysym keysyms sym index || in_columns keysyms sym columns (index + 1)

-- The first of so many keycodes that has the keysym in any of its columns.
unfoldable pub first_keycode : List ℕ → ℕ → ℕ → ℕ → ℕ → ℕ → Option ℕ
unfolding in_columns
first_keycode keysyms kpkc min_kc sym zero kc = none
first_keycode keysyms kpkc min_kc sym (suc count) kc =
    let later = first_keycode keysyms kpkc min_kc sym count (kc + 1) in
    if in_columns keysyms sym kpkc (kc * kpkc) then some (min_kc + kc) else later

abbrev find : ℕ → KeysymTable → Option ℕ
find = lookup ℕ_discrete

lookup-or_insert :
    (sym s keycode : ℕ) (out : KeysymTable)
    → find sym (or_insert s keycode out)
      ≡ or_else (find sym out) (if s == sym then some keycode else none)
unfolding or_insert or_else
lookup-or_insert sym s keycode out =
    ground (arith, lookup-insert ℕ_discrete sym s keycode out, ==_iff s sym)

lookup-add_column :
    (keysyms : List ℕ) (sym index keycode : ℕ) (out : KeysymTable)
    → sym ≢ 0
    → find sym (add_column keysyms index keycode out)
      ≡ or_else (find sym out) (if has_keysym keysyms sym index then some keycode else none)
unfolding add_column has_keysym or_else
lookup-add_column keysyms sym index keycode out h = elim (Option-cases (get_elem? keysyms index)) [
  | inl e ↦ ground arith
  | inr (s, e) ↦ ground (arith, lookup-or_insert sym s keycode out)
]

lookup-add_columns :
    (keysyms : List ℕ) (sym columns index keycode : ℕ) (out : KeysymTable)
    → sym ≢ 0
    → find sym (add_columns keysyms columns index keycode out)
      ≡ or_else (find sym out) (if in_columns keysyms sym columns index then some keycode else none)
unfolding add_columns in_columns or_else
lookup-add_columns keysyms sym zero index keycode out h = ground arith
lookup-add_columns keysyms sym (suc columns) index keycode out h = ground (
  arith,
  lookup-add_columns keysyms sym columns (index + 1) keycode (add_column keysyms index keycode out),
  lookup-add_column keysyms sym index keycode out,
)

lookup-add_keycodes :
    (keysyms : List ℕ) (kpkc min_kc sym count kc : ℕ) (out : KeysymTable)
    → sym ≢ 0
    → min_kc + kc + count ≤ 2 ^ 8
    → find sym (add_keycodes keysyms kpkc min_kc count kc out)
      ≡ or_else (find sym out) (first_keycode keysyms kpkc min_kc sym count kc)
unfolding add_keycodes first_keycode or_else
lookup-add_keycodes keysyms kpkc min_kc sym zero kc out h fits = ground arith
lookup-add_keycodes keysyms kpkc min_kc sym (suc count) kc out h fits =
    let keycode : ℕ = (min_kc + kc) % 2 ^ 8 in
    let small : keycode ≡ min_kc + kc = omega arith in
    ground (
      arith,
      small,
      lookup-add_keycodes keysyms kpkc min_kc sym count (kc + 1)
          (add_columns keysyms kpkc (kc * kpkc) keycode out) h (omega arith),
      lookup-add_columns keysyms sym kpkc (kc * kpkc) keycode out,
    )

-- The emitter's keycode for a keysym is the first keycode, counted from the keyboard's first one, that
-- has the keysym in any of its columns, shifted or not; without one the table has no entry. The lowest
-- keycode is not 0, so that the number of keycodes is a `u8`.
pub build_keysym_table-first :
    (keysyms : List ℕ) (kpkc min_kc max_kc sym : ℕ)
    → sym ≢ 0
    → 0 < min_kc
    → min_kc ≤ max_kc
    → max_kc < 2 ^ 8
    → lookup ℕ_discrete sym (build_keysym_table keysyms kpkc min_kc max_kc)
      ≡ first_keycode keysyms kpkc min_kc sym (max_kc - min_kc + 1) 0
unfolding build_keysym_table
build_keysym_table-first keysyms kpkc min_kc max_kc sym h low le high =
    let count : keycode_count min_kc max_kc ≡ max_kc - min_kc + 1 =
      unfold keycode_count in (omega arith) in
    rw count (
      unfold lookup or_else in
      (lookup-add_keycodes keysyms kpkc min_kc sym (max_kc - min_kc + 1) 0 [] h (omega arith)))

pub first_keycode-range :
    (keysyms : List ℕ) (kpkc min_kc sym count kc k : ℕ)
    → first_keycode keysyms kpkc min_kc sym count kc ≡ some k
    → (min_kc + kc ≤ k) × (k < min_kc + kc + count)
unfolding first_keycode
first_keycode-range keysyms kpkc min_kc sym zero kc k h = absurd (cc)
first_keycode-range keysyms kpkc min_kc sym (suc count) kc k h =
    elim (Bool-cases (in_columns keysyms sym kpkc (kc * kpkc))) [
      | inl here ↦ (ground arith, ground arith)
      | inr later ↦
          let (low, high) =
            first_keycode-range keysyms kpkc min_kc sym count (kc + 1) k (ground arith) in
          (omega arith, omega arith)
    ]
