-- ===== src/Runtime/Spoke.antt =====
-- The spoke of crates/cli/src/runtime/client.rs: dialing, the reader loop of a session and the waits
-- between the attempts. The hex decoder, the resolver and the dialing are parameters, and the input
-- backend is whether it opened and what it was given.
pub mod Dialing
pub mod Backoff
mod Tests
use Prim.Native.String.{String}
use borderless.Base.{
  ℕ, zero, suc, ◌+◌, ◌-◌, Bool, true, false, not, List, [], ◌∷◌, ◌++◌, Option, none, some, Result,
  ok, err, ◌>>=◌, ◌>>◌, fail_if, or_fail, length, get_elem?, ◌==◌, min, if◌then◌else◌, ltb, leb,
}
use borderless.Core.Clipboard.{ClipboardSnapshot}
use borderless.Core.Input.{InputEvent}
use borderless.Core.Node.{Bytes}
use borderless.Core.Wire.{WireFrame}
use borderless.Clipboard.Engine
use borderless.Transport.Connection.{Codec, send_frame, recv_frame}
use borderless.Transport.Error.{Error}
use borderless.Transport.Frame.{Stream}

pub data Failure : Type 0 where
  resolve : Failure
  no_addresses : Failure
  no_candidate : Failure
  hex_decode : Failure
  wrong_length : ℕ → Failure
  transport : Error → Failure

-- `parse_pubkey`
unfoldable pub parse_pubkey : (String → Option Bytes) → String → Result Failure Bytes
parse_pubkey decode s = do
  bytes ← or_fail (decode s) hex_decode
  fail_if (not (length bytes == 32)) (wrong_length (length bytes))
  ok bytes

pub record Spoke : Type 0 where
  pub clipboard : Engine.Inner
  pub applied : List ClipboardSnapshot
  pub can_emit : Bool
  pub emitted : List InputEvent

-- One turn of `reader_loop`, with the stream on which a reply goes out; a failing reply is ignored.
unfoldable pub on_frame : Codec WireFrame → WireFrame → Stream → Spoke → Stream × Spoke
on_frame c (WireFrame.clipboard snap) s k =
    let (clipboard, decision) = Engine.observe_remote k.clipboard snap in
    elim decision [
      | Engine.apply snap ↦
          (s, record k { clipboard = clipboard; applied = k.applied ++ (snap ∷ []) })
      | Engine.ignore ↦ (s, record k { clipboard = clipboard })
    ]
on_frame c (WireFrame.input ev) s k =
    (s, if k.can_emit then record k { emitted = k.emitted ++ (ev ∷ []) } else k)
on_frame c (WireFrame.fetch_request hash) s k = elim (send_frame c (WireFrame.fetch_miss hash) s) [
  | ok s' ↦ (s', k)
  | err _ ↦ (s, k)
]
on_frame c (WireFrame.fetch_response hash i total bytes) s k = (s, k)
on_frame c (WireFrame.fetch_miss hash) s k = (s, k)
on_frame c (WireFrame.control _) s k = (s, k)

-- `reader_loop`, in at most so many turns: `none` where it still runs.
unfoldable pub reader_loop :
    Codec WireFrame → ℕ → Stream → Spoke → Spoke × Option (Result Error (Unit {0}))
unfolding on_frame
reader_loop c zero s k = (k, none)
reader_loop c (suc n) s k = elim (recv_frame c s) [
  | err e ↦ (k, some (err e))
  | ok (frame, s') ↦ let (s'', k') = on_frame c frame s' k in reader_loop c n s'' k'
]

pub data Addr : Type 0 where
  v4 : ℕ → Addr
  v6 : ℕ → Addr

-- `if a.is_ipv4() { 0 } else { 1 }`
abbrev pub sort_key : Addr → ℕ
sort_key (v4 _) = 0
sort_key (v6 _) = 1

-- `sort_by_key`, which is stable, by insertion.
unfoldable pub insert_addr : Addr → List Addr → List Addr
insert_addr a [] = a ∷ []
insert_addr a (b ∷ bs) =
    let rest = insert_addr a bs in if leb (sort_key a) (sort_key b) then a ∷ b ∷ bs else b ∷ rest

unfoldable pub sort_addrs : List Addr → List Addr
unfolding insert_addr
sort_addrs [] = []
sort_addrs (a ∷ as') = insert_addr a (sort_addrs as')

-- `run_session(rt, conn).await?; return Ok(())`. That a session which has ended also waits for its writer
-- task, before the attempt ends, is left out.
unfoldable pub ended : Option (Result Error (Unit {0})) → Option (Result Failure (Unit {0}))
ended none = none
ended (some (ok _)) = some (ok tt)
ended (some (err e)) = some (err (transport e))

module _ (dial : Addr → Result Error Stream)
    (session : Stream → Option (Result Error (Unit {0}))) where
  -- The `for` loop over the addresses: what was dialed, and how it ended.
  unfoldable pub dial_each :
      Option Error → List Addr → List Addr × Option (Result Failure (Unit {0}))
  unfolding ended
  dial_each none [] = ([], some (err no_candidate))
  dial_each (some e) [] = ([], some (err (transport e)))
  dial_each last (addr ∷ addrs) = elim (dial addr) [
    | ok conn ↦ (addr ∷ [], ended (session conn))
    | err e ↦ let (dialed, end) = dial_each (some e) addrs in (addr ∷ dialed, end)
  ]

  -- `run_once`, with what the resolver answers.
  unfoldable pub run_once : Option (List Addr) → List Addr × Option (Result Failure (Unit {0}))
  unfolding dial_each sort_addrs
  run_once none = ([], some (err resolve))
  run_once (some []) = ([], some (err no_addresses))
  run_once (some (a ∷ as')) = dial_each none (sort_addrs (a ∷ as'))

-- The delays in seconds.
abbrev pub backoff : List ℕ
backoff = 1 ∷ 2 ∷ 5 ∷ 15 ∷ 60 ∷ []

-- One turn of the loop of `run`: the new index and the delay before the next attempt. The index is
-- always in range.
unfoldable pub retry : ℕ → Result Failure (Unit {0}) → ℕ × Option ℕ
retry idx (ok _) = (0, none)
retry idx (err e) =
    (min (idx + 1) (length backoff - 1), get_elem? backoff (min idx (length backoff - 1)))

-- The delays of a sequence of attempts.
unfoldable pub delays : ℕ → List (Result Failure (Unit {0})) → List (Option ℕ)
unfolding retry
delays idx [] = []
delays idx (r ∷ rs) = let (idx', d) = retry idx r in d ∷ delays idx' rs
