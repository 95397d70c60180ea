-- ===== src/Transport/Frame/Tests.antt =====
-- Frames on concrete streams.
use borderless.Base.{◌≡◌, refl, false, [], ◌∷◌, ok, err}
use borderless.Core.Node.{Bytes}
use borderless.Transport.Error.{Error}
use borderless.Transport.Frame.{Stream, read_framed, write_framed}

abbrev pub closed : Bytes → Stream
closed bytes = record { incoming = bytes; outgoing = []; broken = false }

abbrev nine : Bytes
nine = 9 ∷ []

abbrev sent : Stream
sent = record { incoming = []; outgoing = 2 ∷ 0 ∷ 0 ∷ 0 ∷ 9 ∷ 8 ∷ []; broken = false }

written : write_framed (9 ∷ 8 ∷ []) (closed []) ≡ ok sent
unfolding write_framed
written = refl

read_back : read_framed (closed (2 ∷ 0 ∷ 0 ∷ 0 ∷ 9 ∷ 8 ∷ 7 ∷ [])) ≡ ok (9 ∷ 8 ∷ [], closed (7 ∷ []))
unfolding read_framed
read_back = refl

cut_short : read_framed (closed (2 ∷ 0 ∷ 0 ∷ 0 ∷ 9 ∷ [])) ≡ err Error.io
unfolding read_framed
cut_short = refl

too_long : read_framed (closed (1 ∷ 0 ∷ 0 ∷ 4 ∷ [])) ≡ err (Error.codec "frame too large")
unfolding read_framed
too_long = refl
