-- ===== src/Runtime/Spoke/Tests.antt =====
-- Concrete attempts.
use borderless.Base.{
  ◌≡◌, refl, min, true, false, List, [], ◌∷◌, none, some, Result, ok, err, get_elem?, arith,
}
use borderless.Core.Wire.{WireFrame}
use borderless.Transport.Connection.{Codec}
use borderless.Transport.Error.{Error}
use borderless.Transport.Frame.{Stream}
use borderless.Runtime.Spoke.{
  Addr, v4, v6, Failure, resolve, transport, wrong_length, parse_pubkey, Spoke, reader_loop,
  run_once, sort_addrs, delays, backoff,
}
use borderless.Runtime.Spoke.Backoff.{IsOutcome, delays_never_reset}

abbrev addrs : List Addr
addrs = v6 1 ∷ v4 2 ∷ v6 3 ∷ v4 4 ∷ []

sorted : sort_addrs addrs ≡ v4 2 ∷ v4 4 ∷ v6 1 ∷ v6 3 ∷ []
unfolding sort_addrs
sorted = refl

short_key : parse_pubkey (λ s. some (1 ∷ [])) "01" ≡ err (wrong_length 1)
unfolding parse_pubkey
short_key = refl

abbrev stream : Stream
stream = record { incoming = []; outgoing = []; broken = false }

-- Only the IPv6 addresses answer.
abbrev dial : Addr → Result Error Stream
dial (v4 _) = err Error.io
dial (v6 _) = ok stream

abbrev codec : Codec WireFrame
codec = record { encode = λ f. none; decode = λ bytes. none }

abbrev spoke : Spoke
spoke = record {
  clipboard = record {
    self_id = record { bytes = [] };
    local_version = 0;
    history = [];
    history_limit = 1;
  };
  applied = [];
  can_emit = true;
  emitted = [];
}

-- An attempt that finds no name, and one whose session ends.
abbrev outcomes : List (Result Failure (Unit {0}))
outcomes = err resolve ∷ err (transport Error.io) ∷ []

first-IsOutcome : IsOutcome codec spoke (err resolve)
unfolding IsOutcome run_once
first-IsOutcome = (dial, 1, none, refl)

second-IsOutcome : IsOutcome codec spoke (err (transport Error.io))
unfolding IsOutcome run_once reader_loop borderless.Transport.Connection.recv_frame
    borderless.Transport.Frame.read_framed
second-IsOutcome = (dial, 1, some (v6 1 ∷ []), refl)

delays_never_reset_example : get_elem? (delays 0 outcomes) 1 ≡ some (get_elem? backoff (min 1 4))
delays_never_reset_example =
    delays_never_reset codec spoke outcomes 1 (first-IsOutcome, (second-IsOutcome, tt))
      (omega arith)
