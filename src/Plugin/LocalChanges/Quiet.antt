-- ===== src/Plugin/LocalChanges/Quiet.antt =====
-- A pass of plugin/src/local-changes.ts starts in a still vault, and a burst of changes costs one.
use obsidian_syncserver.Prelude.{
  ℕ, ◌+◌, ◌≤◌, ◌≡◌, refl, ◌⊎◌, inl, inr, Bool, true, false, Option, none, some, List, [], ◌∷◌,
  arith,
}
use obsidian_syncserver.Plugin.LocalChanges.{
  Watcher, idle, disarm, settle, touch, Event, touched, fired, stopped, meet,
}

-- A timer fires only when it is set, and not before its time.
abbrev pub Due : ℕ → Option ℕ → Type 0
Due t none = ⊥
Due t (some d) = d ≤ t

-- Changes come in the order of their times, from `last` on, and the timer fires when it is due.
abbrev pub Valid : ℕ → Watcher → ℕ → List Event → Type 0
Valid quiet w last [] = Unit
Valid quiet w last (touched t enabled ∷ events) =
    (last ≤ t) × Valid quiet (meet quiet w (touched t enabled)) t events
Valid quiet w last (fired t busy ∷ events) =
    Due t w.handle × Valid quiet (meet quiet w (fired t busy)) last events
Valid quiet w last (stopped ∷ events) = Valid quiet (meet quiet w stopped) last events

abbrev pub run : ℕ → Watcher → List Event → Watcher
run quiet w [] = w
run quiet w (e ∷ events) = run quiet (meet quiet w e) events

abbrev pub last_touch : ℕ → List Event → ℕ
last_touch last [] = last
last_touch last (touched t enabled ∷ events) = last_touch t events
last_touch last (fired t busy ∷ events) = last_touch last events
last_touch last (stopped ∷ events) = last_touch last events

abbrev pub touches : List Event → ℕ
touches [] = 0
touches (touched t enabled ∷ events) = touches events + 1
touches (fired t busy ∷ events) = touches events
touches (stopped ∷ events) = touches events

abbrev Armed : ℕ → ℕ → Option ℕ → Type 0
Armed quiet last none = Unit
Armed quiet last (some d) = last + quiet ≤ d

abbrev pub pending : Option ℕ → ℕ
pending none = 0
pending (some d) = 1

-- What holds of a watcher after `n` changes, the last of them at `last`.
abbrev Paced : ℕ → ℕ → ℕ → Watcher → Type 0
Paced quiet last n w = Armed quiet last w.handle × (w.passes + pending w.handle ≤ n)

touch-Paced :
    (quiet last n t : ℕ) (enabled : Bool) (w : Watcher)
    → Paced quiet last n w
    → Paced quiet t (n + 1) (touch quiet t enabled w)
unfolding touch
touch-Paced quiet last n t true w (a, le) = (omega arith, omega (arith, le))
touch-Paced quiet last n t false w (a, le) = (tt, omega (arith, le))

settle-Paced :
    (quiet last n t : ℕ) (busy : Bool) (w : Watcher)
    → Due t w.handle
    → Paced quiet last n w
    → Paced quiet last n (settle quiet t busy w)
unfolding settle
settle-Paced quiet last n t busy w due p = go busy w.handle due p
  where
    go :
        (busy : Bool) (handle : Option ℕ)
        → Due t handle
        → Paced quiet last n (record w { handle = handle })
        → Paced quiet last n (settle quiet t busy (record w { handle = handle }))
    go busy none due p = absurd due
    go true (some d) due (a, le) = (omega (arith, a, due), le)
    go false (some d) due (a, le) = (tt, omega (arith, le))

run-Paced :
    (quiet last n : ℕ) (events : List Event) (w : Watcher)
    → Valid quiet w last events
    → Paced quiet last n w
    → Paced quiet (last_touch last events) (n + touches events) (run quiet w events)
unfolding meet
run-Paced quiet last n [] w valid p = (p.0, omega (arith, p.1))
run-Paced quiet last n (touched t enabled ∷ events) w (le, valid) p =
    let (a, b) =
      run-Paced quiet t (n + 1) events (touch quiet t enabled w) valid
        (touch-Paced quiet last n t enabled w p) in
    (a, omega (arith, b))
run-Paced quiet last n (fired t busy ∷ events) w (due, valid) p =
    run-Paced quiet last n events (settle quiet t busy w) valid
      (settle-Paced quiet last n t busy w due p)
run-Paced quiet last n (stopped ∷ events) w valid (a, le) =
    run-Paced quiet last n events (disarm w) valid (tt, omega (arith, le))

-- After any valid sequence of events no more passes were started than changes were seen, one that
-- still waits included.
pub passes-le-touches :
    (quiet : ℕ) (events : List Event)
    → Valid quiet idle 0 events
    → (run quiet idle events).passes + pending (run quiet idle events).handle ≤ touches events
passes-le-touches quiet events valid =
    omega (arith, (run-Paced quiet 0 0 events idle valid (tt, omega arith)).1)

-- When the timer is due after a valid sequence of events, either no pass starts or nothing holds the
-- gate and the last change of the vault is at least the quiet period ago.
pub settle-quiet :
    (quiet : ℕ) (events : List Event) (t : ℕ) (busy : Bool)
    → Valid quiet idle 0 events
    → Due t (run quiet idle events).handle
    → ((settle quiet t busy (run quiet idle events)).passes ≡ (run quiet idle events).passes)
      ⊎ ((busy ≡ false) × (last_touch 0 events + quiet ≤ t))
unfolding settle
settle-quiet quiet events t true valid due = inl refl
settle-quiet quiet events t false valid due = inr (
  refl,
  go (run quiet idle events).handle due (run-Paced quiet 0 0 events idle valid (tt, omega arith)).0,
)
  where
    go :
        (handle : Option ℕ)
        → Due t handle
        → Armed quiet (last_touch 0 events) handle
        → last_touch 0 events + quiet ≤ t
    go none due a = absurd due
    go (some d) due a = omega (arith, due, a)
