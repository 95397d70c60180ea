-- ===== src/Pal/Clipboard.antt =====
-- The clipboard backends of imp.rs in crates/pal-x11, pal-windows and pal-macos, which are alike. The
-- clipboard of the system is the text that it holds, if it is text, and whether a write fails.
use Prim.Native.String.{String}
use text.Mathlib.Text
use text.Mathlib.TextPositions.{eq_refl}
use borderless.Base.{
  ◌≡◌, refl, Bool, List, [], ◌∷◌, Option, none, some, if◌then◌else◌, Result, ok, err, arith,
}
use borderless.Core.Clipboard.{ClipItem, ClipboardSnapshot}
use borderless.Pal.Traits.{PalError}

pub record Clipboard : Type 0 where
  pub content : Option String
  pub fails : Bool

-- The closure of `write`.
unfoldable pub text_of_item : ClipItem → Option String
text_of_item (ClipItem.text t) = some t
text_of_item (ClipItem.html _ plain_fallback) = some plain_fallback
text_of_item (ClipItem.image _ _ _) = none
text_of_item (ClipItem.files _) = none

-- `find_map`
unfoldable pub text_of : List ClipItem → Option String
unfolding text_of_item
text_of [] = none
text_of (item ∷ items) =
    let rest = text_of items in elim (text_of_item item) [ some t ↦ some t | none ↦ rest ]

unfoldable pub read : Clipboard → Option String
read c = c.content

unfoldable pub set_text : String → Clipboard → Clipboard × Result PalError (Unit {0})
set_text t c =
    if c.fails then (c, err (PalError.backend "")) else (record c { content = some t }, ok tt)

unfoldable pub write : ClipboardSnapshot → Clipboard → Clipboard × Result PalError (Unit {0})
unfolding text_of set_text
write snap c = elim (text_of snap.items) [ none ↦ (c, ok tt) | some t ↦ set_text t c ]

-- `cur != last && cur.is_some()`: the new text, if there is one.
unfoldable pub changed : Option String → Option String → Option String
changed last none = none
changed none (some t) = some t
changed (some l) (some t) = if Text.◌==◌ l t then none else some t

-- One turn of the watcher's loop: what is remembered, and what is sent.
unfoldable pub poll : Option String → Clipboard → Option String × Option String
unfolding changed
poll last c = elim (changed last c.content) [ none ↦ (last, none) | some t ↦ (some t, some t) ]

pub changed-same : (t : String) → changed (some t) (some t) ≡ none
unfolding changed
changed-same t = rw (eq_refl t) refl

-- A watcher that has seen a text does not report it when it is written again.
pub poll-write :
    (t : String) (snap : ClipboardSnapshot) (c : Clipboard)
    → c.content ≡ some t
    → text_of snap.items ≡ some t
    → poll (some t) (write snap c).0 ≡ (some t, none)
unfolding poll write set_text
poll-write t snap c same new = ground (arith, changed-same t)
