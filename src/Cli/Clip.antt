-- ===== src/Cli/Clip.antt =====
-- `clip get` and, on Windows and macOS, `clip set` of crates/cli/src/main.rs.
use Prim.Native.String.{String}
use borderless.Base.{◌≡◌, false, [], ◌∷◌, none, some, replicate, Result, ok, arith}
use borderless.Core.Clipboard.{ClipItem, ClipboardSnapshot}
use borderless.Pal.Clipboard.{Clipboard, read, write, set_text, poll, text_of}
use borderless.Pal.Traits.{PalError}

-- What `clip get` does: the text on stdout, or a remark on stderr with the exit code 1.
pub data Shown : Type 0 where
  printed : (text : String) → Shown
  exit_1 : Shown

unfoldable pub clip_get : Clipboard → Shown
unfolding read
clip_get c = elim (read c) [ some text ↦ printed text | none ↦ exit_1 ]

-- The snapshot that `clip_set` makes, which belongs to no node.
unfoldable pub set_snapshot : String → ClipboardSnapshot
set_snapshot text = record {
  version = 1;
  origin = record { bytes = replicate 16 0 };
  created_unix_ms = 0;
  items = ClipItem.text text ∷ [];
}

unfoldable pub clip_set : String → Clipboard → Clipboard × Result PalError (Unit {0})
unfolding write set_snapshot
clip_set text c = write (set_snapshot text) c

-- What `clip set` writes without an error, the next `clip get` prints, and a watcher that has not
-- seen the text reports.
pub clip_get-clip_set :
    (text : String) (c : Clipboard)
    → c.fails ≡ false
    → (clip_set text c ≡ (record c { content = some text }, ok tt))
      × (clip_get (clip_set text c).0 ≡ printed text)
      × (poll none (clip_set text c).0 ≡ (some text, some text))
unfolding clip_set clip_get set_text text_of poll
clip_get-clip_set text c works = (ground arith, ground arith, ground arith)
