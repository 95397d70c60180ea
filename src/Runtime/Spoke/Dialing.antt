-- ===== src/Runtime/Spoke/Dialing.antt =====
-- Which addresses a spoke dials, and in which order.
use borderless.Base.{
  ℕ, ◌≡◌, refl, ap, List, [], ◌∷◌, ◌++◌, Option, none, some, Result, ok, err, All,
}
use borderless.Transport.Error.{Error}
use borderless.Transport.Frame.{Stream}
use borderless.Runtime.Spoke.{Addr, v4, v6, insert_addr, sort_addrs, dial_each}

-- The addresses of one family, in their order.
unfoldable pub only_v4 : List Addr → List Addr
only_v4 [] = []
only_v4 (v4 a ∷ addrs) = v4 a ∷ only_v4 addrs
only_v4 (v6 a ∷ addrs) = only_v4 addrs

unfoldable pub only_v6 : List Addr → List Addr
only_v6 [] = []
only_v6 (v4 a ∷ addrs) = only_v6 addrs
only_v6 (v6 a ∷ addrs) = v6 a ∷ only_v6 addrs

insert_v4 : (a : ℕ) (addrs : List Addr) → insert_addr (v4 a) addrs ≡ v4 a ∷ addrs
unfolding insert_addr
insert_v4 a [] = refl
insert_v4 a (v4 b ∷ addrs) = refl
insert_v4 a (v6 b ∷ addrs) = refl

insert_v6 :
    (a : ℕ) (addrs rest : List Addr)
    → insert_addr (v6 a) (only_v4 addrs ++ only_v6 rest) ≡ only_v4 addrs ++ (v6 a ∷ only_v6 rest)
unfolding insert_addr only_v4 only_v6
insert_v6 a [] [] = refl
insert_v6 a [] (v4 b ∷ rest) = insert_v6 a [] rest
insert_v6 a [] (v6 b ∷ rest) = refl
insert_v6 a (v4 b ∷ addrs) rest = ap (◌∷◌ (v4 b)) (insert_v6 a addrs rest)
insert_v6 a (v6 b ∷ addrs) rest = insert_v6 a addrs rest

-- The sorted addresses are the IPv4 ones in the resolver's order, then the IPv6 ones in that order.
pub sort_addrs_lem : (addrs : List Addr) → sort_addrs addrs ≡ only_v4 addrs ++ only_v6 addrs
unfolding sort_addrs only_v4 only_v6
sort_addrs_lem [] = refl
sort_addrs_lem (v4 a ∷ addrs) =
    rw (sort_addrs_lem addrs) (insert_v4 a (only_v4 addrs ++ only_v6 addrs))
sort_addrs_lem (v6 a ∷ addrs) = rw (sort_addrs_lem addrs) (insert_v6 a addrs addrs)

module _ (dial : Addr → Result Error Stream)
    (session : Stream → Option (Result Error (Unit {0}))) where
  -- An address that does not answer.
  abbrev pub Refuses : Addr → Type 0
  Refuses addr = (e : Error) × (dial addr ≡ err e)

  dial_each_err :
      (last : Option Error) (addr : Addr) (addrs : List Addr) (e : Error)
      → dial addr ≡ err e
      → dial_each dial session last (addr ∷ addrs) ≡ (
        addr ∷ (dial_each dial session (some e) addrs).0,
        (dial_each dial session (some e) addrs).1,
      )
  unfolding dial_each
  dial_each_err none addr addrs e h = rw (h, dial_each)
  dial_each_err (some l) addr addrs e h = rw (h, dial_each)

  -- The loop dials in order up to the first address that answers, and no further; the outcome is that
  -- of the session there.
  pub dial_each-first :
      (last : Option Error) (refusing rest : List Addr) (addr : Addr) (conn : Stream)
      → All Refuses refusing
      → dial addr ≡ ok conn
      → (dial_each dial session last (refusing ++ (addr ∷ rest))).0 ≡ refusing ++ (addr ∷ [])
  unfolding dial_each
  dial_each-first none [] rest addr conn r h = rw (h, dial_each)
  dial_each-first (some l) [] rest addr conn r h = rw (h, dial_each)
  dial_each-first last (a ∷ refusing) rest addr conn r h =
      rw (dial_each_err last a (refusing ++ (addr ∷ rest)) r.0.0 r.0.1)
        (ap (◌∷◌ a) (dial_each-first (some r.0.0) refusing rest addr conn r.1 h))
