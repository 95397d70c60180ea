-- ===== src/Runtime/Spoke/Backoff.antt =====
-- How long a spoke waits.
use borderless.Base.{
  ℕ, zero, suc, ◌+◌, ◌<◌, ◌≤◌, min, ◌≡◌, ◌≢◌, refl, ap, ◌∙◌, List, [], ◌∷◌, length, get_elem?,
  Option, none, some, Result, ok, err, All, Result-cases, inl, inr, arith,
}
use borderless.Core.Wire.{WireFrame}
use borderless.Transport.Connection.{Codec, recv_frame}
use borderless.Transport.Error.{Error}
use borderless.Transport.Frame.{Stream}
use borderless.Runtime.Spoke.{
  Addr, Failure, Spoke, on_frame, reader_loop, ended, ended, dial_each, run_once, sort_addrs, retry,
  delays, backoff,
}

-- Not a success.
abbrev pub IsFailure : {E : Type 0} → Option (Result E (Unit {0})) → Type 0
IsFailure r = r ≢ some (ok tt)

pub reader_loop-IsFailure :
    (c : Codec WireFrame) (n : ℕ) (s : Stream) (k : Spoke) → IsFailure (reader_loop c n s k).1
unfolding reader_loop
reader_loop-IsFailure c zero s k = λ h. cc
reader_loop-IsFailure c (suc n) s k = elim (Result-cases (recv_frame c s)) [
  | inl (e, h) ↦ rw (h, reader_loop) (λ h. cc)
  | inr ((f, s'), h) ↦
      rw (h, reader_loop) (reader_loop-IsFailure c n (on_frame c f s' k).0 (on_frame c f s' k).1)
]

ended-IsFailure : (r : Option (Result Error (Unit {0}))) → IsFailure r → IsFailure (ended r)
unfolding ended
ended-IsFailure none h = λ e. cc
ended-IsFailure (some (ok tt)) h = λ e. absurd (h refl)
ended-IsFailure (some (err x)) h = λ e. cc

zero_add : (n : ℕ) → 0 + n ≡ n
zero_add n = omega arith

module _ (dial : Addr → Result Error Stream) (session : Stream → Option (Result Error (Unit {0})))
    (fails : (s : Stream) → IsFailure (session s)) where
  dial_each-IsFailure :
      (last : Option Error) (addrs : List Addr) → IsFailure (dial_each dial session last addrs).1
  unfolding dial_each
  dial_each-IsFailure none [] = λ h. cc
  dial_each-IsFailure (some e) [] = λ h. cc
  dial_each-IsFailure none (a ∷ addrs) = elim (Result-cases (dial a)) [
    | inl (e, h) ↦ rw (h, dial_each) (dial_each-IsFailure (some e) addrs)
    | inr (conn, h) ↦ rw (h, dial_each) (ended-IsFailure (session conn) (fails conn))
  ]
  dial_each-IsFailure (some l) (a ∷ addrs) = elim (Result-cases (dial a)) [
    | inl (e, h) ↦ rw (h, dial_each) (dial_each-IsFailure (some e) addrs)
    | inr (conn, h) ↦ rw (h, dial_each) (ended-IsFailure (session conn) (fails conn))
  ]

  pub run_once-IsFailure : (o : Option (List Addr)) → IsFailure (run_once dial session o).1
  unfolding run_once
  run_once-IsFailure none = λ h. cc
  run_once-IsFailure (some []) = λ h. cc
  run_once-IsFailure (some (a ∷ addrs)) = dial_each-IsFailure none (sort_addrs (a ∷ addrs))

-- An outcome that an attempt can have: of `run_once`, whatever the resolver and the dialing answer and
-- whatever a session of any length does.
unfoldable pub IsOutcome : Codec WireFrame → Spoke → Result Failure (Unit {0}) → Type 0
IsOutcome c k r =
    (dial : Addr → Result Error Stream) × (n : ℕ) × (o : Option (List Addr)) × ((run_once dial
        (λ s. (reader_loop c n s k).1) o).1
      ≡ some r)

add_zero : (n : ℕ) → n ≡ n + 0
add_zero n = omega arith

next_min : (idx i : ℕ) → min (min (idx + 1) 4 + i) 4 ≡ min (idx + suc i) 4
next_min idx i = omega arith

delays-err :
    (idx i : ℕ) (rs : List (Result Failure (Unit {0})))
    → All (λ r. r ≢ ok tt) rs
    → i < length rs
    → idx ≤ 4
    → get_elem? (delays idx rs) i ≡ some (get_elem? backoff (min (idx + i) 4))
unfolding delays retry
delays-err idx i [] h l b = absurd (omega arith)
delays-err idx zero (ok tt ∷ rs) h l b = absurd (h.0 refl)
delays-err idx zero (err e ∷ rs) h l b = ap (λ j. some (get_elem? backoff (min j 4))) (add_zero idx)
delays-err idx (suc i) (ok tt ∷ rs) h l b = absurd (h.0 refl)
delays-err idx (suc i) (err e ∷ rs) h l b =
    delays-err (min (idx + 1) 4) i rs h.1 (omega arith) (omega arith)
    ∙ ap (λ j. some (get_elem? backoff j)) (next_min idx i)

outcomes-err :
    (c : Codec WireFrame) (k : Spoke) (rs : List (Result Failure (Unit {0})))
    → All (IsOutcome c k) rs
    → All (λ r. r ≢ ok tt) rs
unfolding IsOutcome
outcomes-err c k [] h = tt
outcomes-err c k (r ∷ rs) h =
    let (dial, n, o, e) = h.0 in
    (
      (λ x.
          run_once-IsFailure dial (λ s. (reader_loop c n s k).1)
            (λ s. reader_loop-IsFailure c n s k) o (e ∙ ap some x)),
      outcomes-err c k rs h.1,
    )

-- Before the attempt after the i-th one a spoke waits 1, 2, 5, 15 and then always 60 seconds, counted
-- from its start: a session that was established never starts the sequence again, because the reader
-- loop can only end with an error.
pub delays_never_reset :
    (c : Codec WireFrame) (k : Spoke) (rs : List (Result Failure (Unit {0}))) (i : ℕ)
    → All (IsOutcome c k) rs
    → i < length rs
    → get_elem? (delays 0 rs) i ≡ some (get_elem? backoff (min i 4))
delays_never_reset c k rs i h l =
    delays-err 0 i rs (outcomes-err c k rs h) l (omega arith)
    ∙ ap (λ j. some (get_elem? backoff (min j 4))) (zero_add i)
