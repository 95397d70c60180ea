-- ===== src/Transport/Connection/Lock.antt =====
-- The `AsyncMutex` around the stream of a `Connection` in crates/transport/src/connection.rs:
-- `read_framed` holds it while it waits for a frame, and `write_framed` needs it. Each end of a
-- connection has one reader task and one writer task, as the two runtimes spawn them.
use borderless.Base.{
  ℕ, zero, suc, ◌≡◌, refl, Bool, true, false, List, [], ◌∷◌, Option, none, some, Option-cases, inl,
  inr, arith,
}

pub data Task : Type 0 where
  reading writing : Task

-- One end: who holds the lock, the frames that have arrived and the ones that wait to be sent, and
-- how many were received.
pub record End : Type 0 where
  pub holder : Option Task
  pub arrived : ℕ
  pub queued : ℕ
  pub received : ℕ

pub data Act : Type 0 where
  queue : Act
  lock_to_read : Act
  read : Act
  lock_to_write : Act
  write : Act

-- What an act does to an end and to its peer; `none` where the task has to wait.
unfoldable pub act : Act → End → End → Option (End × End)
act queue e peer = some (record e { queued = suc e.queued }, peer)
act lock_to_read e peer = elim e.holder [
  | none ↦ some (record e { holder = some reading }, peer)
  | some _ ↦ none
]
act read e peer = elim e.holder [
  | some reading ↦ elim e.arrived [
    | zero ↦ none
    | suc n ↦ some (record e { holder = none; arrived = n; received = suc e.received }, peer)
  ]
  | some writing ↦ none
  | none ↦ none
]
act lock_to_write e peer = elim e.holder [
  | none ↦ elim e.queued [ zero ↦ none | suc n ↦ some (record e { holder = some writing }, peer) ]
  | some _ ↦ none
]
act write e peer = elim e.holder [
  | some writing ↦ elim e.queued [
    | zero ↦ none
    | suc n ↦
        some (record e { holder = none; queued = n }, record peer { arrived = suc peer.arrived })
  ]
  | some reading ↦ none
  | none ↦ none
]

pub record Link : Type 0 where
  pub left : End
  pub right : End

-- The acts of the two ends in the order in which they happen; `true` is the left end.
unfoldable pub run : Link → List (Bool × Act) → Option Link
unfolding act
run k [] = some k
run k ((true, a) ∷ as') = elim (act a k.left k.right) [
  | none ↦ none
  | some (l, r) ↦ run (record { left = l; right = r }) as'
]
run k ((false, a) ∷ as') = elim (act a k.right k.left) [
  | none ↦ none
  | some (r, l) ↦ run (record { left = l; right = r }) as'
]

-- An end whose reader holds the lock and waits.
unfoldable pub IsWaiting : End → ℕ → Type 0
IsWaiting e n = (e.holder ≡ some reading) × (e.arrived ≡ 0) × (e.received ≡ n)

act-IsWaiting :
    (a : Act) (e peer e' peer' : End) (n : ℕ)
    → IsWaiting e n
    → act a e peer ≡ some (e', peer')
    → IsWaiting e' n × (peer' ≡ peer)
unfolding act IsWaiting
act-IsWaiting queue e peer e' peer' n w h = ground arith
act-IsWaiting lock_to_read e peer e' peer' n w h = ground arith
act-IsWaiting read e peer e' peer' n w h = ground arith
act-IsWaiting lock_to_write e peer e' peer' n w h = ground arith
act-IsWaiting write e peer e' peer' n w h = ground arith

stopped :
    {A B : Type 0} (f : A → Option B) (o : Option A) {b : B}
    → o ≡ none
    → elim o [ none ↦ none | some x ↦ f x ] ≡ some b
    → ⊥
stopped f none e h = cc
stopped f (some x) e h = cc

went :
    {A B : Type 0} (f : A → Option B) (o : Option A) {a : A} {b : B}
    → o ≡ some a
    → elim o [ none ↦ none | some x ↦ f x ] ≡ some b
    → f a ≡ some b
went f none e h = cc
went f (some x) e h = cc

run_left :
    (k k' : Link) (a : Act) (acts : List (Bool × Act))
    → run k ((true, a) ∷ acts) ≡ some k'
    → (l r : End) × (act a k.left k.right ≡ some (l, r))
      × (run (record { left = l; right = r }) acts ≡ some k')
unfolding run
run_left k k' a acts h = elim (Option-cases (act a k.left k.right)) [
  | inl e ↦ absurd (
      stopped (λ (x : End × End). run (record { left = x.0; right = x.1 }) acts)
        (act a k.left k.right) e h)
  | inr ((l, r), e) ↦ (
    l,
    r,
    e,
    went (λ (x : End × End). run (record { left = x.0; right = x.1 }) acts) (act a k.left k.right) e
        h,
  )
]

run_right :
    (k k' : Link) (a : Act) (acts : List (Bool × Act))
    → run k ((false, a) ∷ acts) ≡ some k'
    → (r l : End) × (act a k.right k.left ≡ some (r, l))
      × (run (record { left = l; right = r }) acts ≡ some k')
unfolding run
run_right k k' a acts h = elim (Option-cases (act a k.right k.left)) [
  | inl e ↦ absurd (
      stopped (λ (x : End × End). run (record { left = x.1; right = x.0 }) acts)
        (act a k.right k.left) e h)
  | inr ((r, l), e) ↦ (
    r,
    l,
    e,
    went (λ (x : End × End). run (record { left = x.1; right = x.0 }) acts) (act a k.right k.left) e
        h,
  )
]

run-IsWaiting :
    (k k' : Link) (acts : List (Bool × Act)) (m n : ℕ)
    → IsWaiting k.left m
    → IsWaiting k.right n
    → run k acts ≡ some k'
    → IsWaiting k'.left m × IsWaiting k'.right n
unfolding run
run-IsWaiting k k' [] m n l r h = ground arith
run-IsWaiting k k' ((true, a) ∷ acts) m n l r h =
    let (e, p, s, t) = run_left k k' a acts h in
    let (w, q) = act-IsWaiting a k.left k.right e p m l s in
    run-IsWaiting (record { left = e; right = p }) k' acts m n w (rw q r) t
run-IsWaiting k k' ((false, a) ∷ acts) m n l r h =
    let (e, p, s, t) = run_right k k' a acts h in
    let (w, q) = act-IsWaiting a k.right k.left e p n r s in
    run-IsWaiting (record { left = p; right = e }) k' acts m n (rw q l) w t

-- A fresh connection with frames queued at both ends.
abbrev pub fresh : ℕ → ℕ → Link
fresh m n = record {
  left = record { holder = none; arrived = 0; queued = m; received = 0 };
  right = record { holder = none; arrived = 0; queued = n; received = 0 };
}

-- When the two reader tasks of a fresh connection take their locks first, whatever the tasks do from
-- then on and however many frames are queued, no frame is ever received at either end: each reader
-- waits for the other's writer with the lock that its own writer needs.
pub readers_first_deadlock :
    (m n : ℕ) (acts : List (Bool × Act)) (k : Link)
    → run (fresh m n) ((true, lock_to_read) ∷ (false, lock_to_read) ∷ acts) ≡ some k
    → (k.left.received ≡ 0) × (k.right.received ≡ 0)
unfolding run act IsWaiting
readers_first_deadlock m n acts k h =
    let (l, r) = run-IsWaiting _ k acts 0 0 (refl, refl, refl) (refl, refl, refl) h in (l.2, r.2)
