-- ===== src/Pal/X11/Capture/Restart.antt =====
-- A capture that is stopped and started again before the next event.
use mathlib.Core.Path.{subst}
use borderless.Base.{
  ℕ, ◌≡◌, ◌≢◌, refl, sym, ap, ap₂, ◌∙◌, true, false, List, [], ◌∷◌, ◌++◌, append-nil, append_assoc,
  All, ite, if_pos, if_neg, ℕ_discrete,
}
use borderless.Core.Input.{InputEvent}
use borderless.Core.ModifierMask
use borderless.Pal.X11.Capture.{Keyboard, Event, dispatch_event}
use borderless.Pal.X11.Capture.Worker
use borderless.Pal.X11.Capture.Worker.{
  Worker, X11Capture, Sent, to_sink, dispatch_all, on_event, start, stop,
}

abbrev pub Events : Type 0
Events = List (ℕ × Event)

-- What is sent for some events, in order.
unfoldable pub run : Keyboard → Events → X11Capture → Sent
unfolding on_event
run kb [] c = []
run kb ((now, ev) ∷ evs) c = let (c', sent) = on_event kb now ev c in sent ++ run kb evs c'

-- What one sink gets of it.
unfoldable pub received : ℕ → Sent → List InputEvent
received s [] = []
received s ((t, e) ∷ sent) = let rest = received s sent in ite (ℕ_discrete t s) (e ∷ rest) rest

-- No worker sends to the sink.
abbrev pub NoSink : ℕ → List Worker → Type 0
NoSink s ws = All (λ (w : Worker). w.sink ≢ s) ws

received-append : (s : ℕ) (xs ys : Sent) → received s (xs ++ ys) ≡ received s xs ++ received s ys
unfolding received
received-append s [] ys = refl
received-append s ((t, e) ∷ xs) ys = elim (ℕ_discrete t s) [
  | yes h ↦
      if_pos (ℕ_discrete t s) h _ _
      ∙ ap (◌∷◌ e) (received-append s xs ys)
      ∙ ap (λ l. l ++ received s ys) (sym (if_pos (ℕ_discrete t s) h _ _))
  | no n ↦
      if_neg (ℕ_discrete t s) n _ _
      ∙ received-append s xs ys
      ∙ ap (λ l. l ++ received s ys) (sym (if_neg (ℕ_discrete t s) n _ _))
]

received-to_sink : (s t : ℕ) (es : List InputEvent) → t ≢ s → received s (to_sink t es) ≡ []
unfolding received
received-to_sink s t [] n = refl
received-to_sink s t (e ∷ es) n = if_neg (ℕ_discrete t s) n _ _ ∙ received-to_sink s t es n

-- The workers after an event, and what they send for it, of two lists one behind the other.
dispatch_all-append :
    (kb : Keyboard) (now : ℕ) (ev : Event) (xs ys : List Worker)
    → dispatch_all kb now ev (xs ++ ys) ≡ (
      (dispatch_all kb now ev xs).0 ++ (dispatch_all kb now ev ys).0,
      (dispatch_all kb now ev xs).1 ++ (dispatch_all kb now ev ys).1,
    )
unfolding dispatch_all
dispatch_all-append kb now ev [] ys = refl
dispatch_all-append kb now ev (w ∷ xs) ys =
    let (m, sent) = dispatch_event kb now ev w.modifiers in
    ap (λ r. (record w { modifiers = m } ∷ r.0, to_sink w.sink sent ++ r.1))
      (dispatch_all-append kb now ev xs ys)
    ∙ ap
        (λ l. (
          record w { modifiers = m }
              ∷ ((dispatch_all kb now ev xs).0 ++ (dispatch_all kb now ev ys).0),
          l,
        ))
        (sym (append_assoc (to_sink w.sink sent) _ _))

NoSink-dispatch_all :
    (kb : Keyboard) (now : ℕ) (ev : Event) (s : ℕ) (ws : List Worker)
    → NoSink s ws
    → NoSink s (dispatch_all kb now ev ws).0
unfolding dispatch_all
NoSink-dispatch_all kb now ev s [] h = tt
NoSink-dispatch_all kb now ev s (w ∷ ws) h = (h.0, NoSink-dispatch_all kb now ev s ws h.1)

received-dispatch_all :
    (kb : Keyboard) (now : ℕ) (ev : Event) (s : ℕ) (ws : List Worker)
    → NoSink s ws
    → received s (dispatch_all kb now ev ws).1 ≡ []
unfolding dispatch_all
received-dispatch_all kb now ev s [] h = unfold received in refl
received-dispatch_all kb now ev s (w ∷ ws) h =
    let sent = (dispatch_event kb now ev w.modifiers).1 in
    received-append s (to_sink w.sink sent) (dispatch_all kb now ev ws).1
    ∙ ap₂ (λ a b. a ++ b) (received-to_sink s w.sink sent h.0)
        (received-dispatch_all kb now ev s ws h.1)

-- A capture whose workers run on.
abbrev running : X11Capture → List Worker → X11Capture
running c ws = record c { stop = false; workers = ws }

-- What a sink gets of an event and of the ones behind it.
run-cons :
    (kb : Keyboard) (s now : ℕ) (ev : Event) (evs : Events) (c : X11Capture) (ws : List Worker)
    → received s (run kb ((now, ev) ∷ evs) (running c ws))
      ≡ received s (dispatch_all kb now ev ws).1
        ++ received s (run kb evs (running c (dispatch_all kb now ev ws).0))
unfolding run on_event
run-cons kb s now ev evs c ws = received-append s (dispatch_all kb now ev ws).1 _

run-both :
    (kb : Keyboard) (s now : ℕ) (ev : Event) (evs : Events) (c : X11Capture) (xs ys : List Worker)
    → received s (run kb ((now, ev) ∷ evs) (running c (xs ++ ys)))
      ≡ (received s (dispatch_all kb now ev xs).1 ++ received s (dispatch_all kb now ev ys).1)
        ++ received s (
            run kb evs (running c ((dispatch_all kb now ev xs).0 ++ (dispatch_all kb now ev ys).0)))
run-both kb s now ev evs c xs ys =
    run-cons kb s now ev evs c (xs ++ ys)
    ∙ ap (λ r. received s r.1 ++ received s (run kb evs (running c r.0)))
        (dispatch_all-append kb now ev xs ys)
    ∙ ap
        (λ l.
          l
          ++ received s (
              run kb evs
                (running c ((dispatch_all kb now ev xs).0 ++ (dispatch_all kb now ev ys).0))))
        (received-append s (dispatch_all kb now ev xs).1 (dispatch_all kb now ev ys).1)

-- Workers that do not send to a sink change nothing of what it gets.
first_only :
    (kb : Keyboard) (s : ℕ) (evs : Events) (c : X11Capture) (xs ys : List Worker)
    → NoSink s ys
    → received s (run kb evs (running c (xs ++ ys))) ≡ received s (run kb evs (running c xs))
first_only kb s [] c xs ys h = unfold run in refl
first_only kb s ((now, ev) ∷ evs) c xs ys h =
    run-both kb s now ev evs c xs ys
    ∙ ap₂ (λ a b. a ++ b)
        (ap (λ l. received s (dispatch_all kb now ev xs).1 ++ l)
            (received-dispatch_all kb now ev s ys h)
          ∙ append-nil (received s (dispatch_all kb now ev xs).1))
        (first_only kb s evs c (dispatch_all kb now ev xs).0 (dispatch_all kb now ev ys).0
          (NoSink-dispatch_all kb now ev s ys h))
    ∙ sym (run-cons kb s now ev evs c xs)

second_only :
    (kb : Keyboard) (s : ℕ) (evs : Events) (c d : X11Capture) (xs ys : List Worker)
    → NoSink s xs
    → received s (run kb evs (running c (xs ++ ys))) ≡ received s (run kb evs (running d ys))
second_only kb s [] c d xs ys h = unfold run in refl
second_only kb s ((now, ev) ∷ evs) c d xs ys h =
    run-both kb s now ev evs c xs ys
    ∙ ap₂ (λ a b. a ++ b)
        (ap (λ l. l ++ received s (dispatch_all kb now ev ys).1)
          (received-dispatch_all kb now ev s xs h))
        (second_only kb s evs c d (dispatch_all kb now ev xs).0 (dispatch_all kb now ev ys).0
          (NoSink-dispatch_all kb now ev s xs h))
    ∙ sym (run-cons kb s now ev evs d ys)

running_on :
    (kb : Keyboard) (s : ℕ) (evs : Events) (c : X11Capture)
    → c.stop ≡ false
    → received s (run kb evs (running (record c { thread = true }) c.workers))
      ≡ received s (run kb evs c)
running_on kb s evs c on =
    second_only kb s evs (record c { thread = true }) c [] c.workers tt
    ∙ ap (λ b. received s (run kb evs (record c { stop = b }))) (sym on)

-- A running capture that is stopped, and started again with another sink before the next event, goes
-- on twice: whatever events come from then on, every other sink gets of them just what it would have
-- got without the stop, and the new sink what it gets of a capture that was started for it alone.
pub restart_duplicates :
    (kb : Keyboard) (evs : Events) (c : X11Capture) (new_sink s : ℕ)
    → c.stop ≡ false
    → NoSink new_sink c.workers
    → let c' = (start true new_sink (stop c)).0 in
      received s (run kb evs c')
      ≡ ite
          (ℕ_discrete s new_sink)
          (received s (run kb evs (start true new_sink Worker.new).0))
          (received s (run kb evs c))
unfolding start stop Worker.new
restart_duplicates kb evs c new_sink s on apart = elim (ℕ_discrete s new_sink) [
  | yes e ↦
      second_only kb s evs (record c { thread = true }) (record Worker.new { thread = true })
        c.workers (record { sink = new_sink; modifiers = ModifierMask.empty } ∷ [])
        (subst (λ t. NoSink t c.workers) (sym e) apart)
      ∙ sym (if_pos (ℕ_discrete s new_sink) e _ _)
  | no n ↦
      first_only kb s evs (record c { thread = true }) c.workers
        (record { sink = new_sink; modifiers = ModifierMask.empty } ∷ []) ((λ e. n (sym e)), tt)
      ∙ running_on kb s evs c on
      ∙ sym (if_neg (ℕ_discrete s new_sink) n _ _)
]
