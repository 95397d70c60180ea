-- ===== src/Clipboard/Engine/History.antt =====
-- The ring buffer of past snapshots against the full log.
use borderless.Base.{
  ℕ, zero, suc, ◌+◌, ◌-◌, ◌%◌, ◌^◌, ◌≤◌, max, ◌≡◌, refl, sym, ap, ◌∙◌, List, [], ◌∷◌, ◌++◌, arith,
  length, drop, append-nil, if◌then◌else◌, ◌==◌, ==_iff, dec_le, append_assoc, length-append,
  length-drop,
}
use borderless.Core.Clipboard.{ClipboardSnapshot}
use borderless.Core.Node.{NodeId}
use borderless.Clipboard.Engine.Echo.{Outcome, dropped, taken, observe_remote-Outcome}
use borderless.Clipboard.Engine.{
  Inner, Call, produces, observes, apply, ignore, Decision, new, produce, observe_remote,
  push_history, step, run,
}

abbrev pub Snapshots : Type 0
Snapshots = List ClipboardSnapshot

-- The last `n` items.
unfoldable pub last_n : ℕ → Snapshots → Snapshots
last_n n xs = drop (length xs - n) xs

-- What a call adds to the log: the snapshot that it makes or applies.
unfoldable pub accepted : Decision → Snapshots
accepted (apply snap) = snap ∷ []
accepted ignore = []

unfoldable pub logged : Inner → Call → Snapshots
logged g (produces item now) = (produce g item now).1 ∷ []
logged g (observes snap) = accepted (observe_remote g snap).1

unfoldable pub log : Inner → List Call → Snapshots
log g [] = []
log g (c ∷ cs) = logged g c ++ log (step g c) cs

drop-append_le : (n : ℕ) (xs ys : Snapshots) → n ≤ length xs → drop n (xs ++ ys) ≡ drop n xs ++ ys
drop-append_le zero xs ys h = refl
drop-append_le (suc n) [] ys h = absurd (omega arith)
drop-append_le (suc n) (x ∷ xs) ys h = drop-append_le n xs ys (omega arith)

drop-nil : (n : ℕ) → drop {A = ClipboardSnapshot} n [] ≡ []
drop-nil zero = refl
drop-nil (suc n) = refl

drop_one-drop : (n : ℕ) (xs : Snapshots) → drop 1 (drop n xs) ≡ drop (suc n) xs
drop_one-drop zero xs = refl
drop_one-drop (suc n) [] = refl
drop_one-drop (suc n) (x ∷ xs) = drop_one-drop n xs

-- A full buffer gives up its oldest item, and then holds the last ones of the longer log.
last_n-push :
    (n : ℕ) (xs : Snapshots) (snap : ClipboardSnapshot)
    → 1 ≤ n
    → (if length (last_n n xs) == n then drop 1 (last_n n xs) else last_n n xs) ++ (snap ∷ [])
      ≡ last_n n (xs ++ (snap ∷ []))
unfolding last_n
last_n-push n xs snap h = elim (dec_le n (length xs)) [
  | yes full ↦
      let whole : length (drop (length xs - n) xs) ≡ n =
        omega (arith, length-drop (length xs - n) xs) in
      rw (whole, (==_iff n n).1 refl)
        (rw (drop_one-drop (length xs - n) xs) (
          sym (drop-append_le (suc (length xs - n)) xs (snap ∷ []) (omega arith))
          ∙ ap (λ (k : ℕ). drop k (xs ++ (snap ∷ []))) {x = suc (length xs - n)}
              (omega (arith, length-append xs (snap ∷ [])))))
  | no room ↦
      let start : length xs - n ≡ 0 = omega arith in
      let start' : length (xs ++ (snap ∷ [])) - n ≡ 0 =
        omega (arith, length-append xs (snap ∷ [])) in
      rw (start, start') (ground arith)
]

-- The buffer holds the end of the log `xs`.
abbrev Holds : ℕ → Inner → Snapshots → Type 0
Holds limit g xs = (g.history_limit ≡ limit) × (g.history ≡ last_n limit xs)

module _ (limit : ℕ) (positive : 1 ≤ limit) where
  push-Holds :
      (g : Inner) (xs : Snapshots) (snap : ClipboardSnapshot)
      → Holds limit g xs
      → Holds limit (push_history g snap) (xs ++ (snap ∷ []))
  unfolding push_history
  push-Holds g xs snap h = (h.0, rw (h.0, h.1) (last_n-push limit xs snap positive))

  observe-Holds :
      (g : Inner) (xs : Snapshots) (snap : ClipboardSnapshot) (r : Inner × Decision)
      → Holds limit g xs
      → Outcome g snap r
      → Holds limit r.0 (xs ++ accepted r.1)
  unfolding accepted
  observe-Holds g xs snap r h (dropped _ e) = rw (e, append-nil) h
  observe-Holds g xs snap r h (taken _ _ decided state) =
      rw (decided, state) (push-Holds (record g { local_version = snap.version }) xs snap h)

  step-Holds :
      (g : Inner) (xs : Snapshots) (c : Call)
      → Holds limit g xs
      → Holds limit (step g c) (xs ++ logged g c)
  unfolding step produce logged
  step-Holds g xs (produces item now) h =
      push-Holds (record g { local_version = (g.local_version + 1) % 2 ^ 64 }) xs _ h
  step-Holds g xs (observes snap) h =
      observe-Holds g xs snap (observe_remote g snap) h (observe_remote-Outcome g snap)

  run-Holds :
      (g : Inner) (xs : Snapshots) (cs : List Call)
      → Holds limit g xs
      → Holds limit (run g cs) (xs ++ log g cs)
  unfolding run log
  run-Holds g xs [] h = rw append-nil h
  run-Holds g xs (c ∷ cs) h =
      rw (← append_assoc xs (logged g c) (log (step g c) cs))
        (run-Holds (step g c) (xs ++ logged g c) cs (step-Holds g xs c h))

-- The history of an engine is the end of the log of everything it has produced or applied since it
-- was made, oldest first, in a buffer of `history_limit` places but one at least.
pub history-run :
    (self : NodeId) (history_limit : ℕ) (cs : List Call)
    → (run (new self history_limit) cs).history
      ≡ last_n (max history_limit 1) (log (new self history_limit) cs)
unfolding new last_n
history-run self history_limit cs =
    (run-Holds (max history_limit 1) (omega arith) (new self history_limit) [] cs
      (refl, sym (drop-nil (0 - max history_limit 1)))).1
