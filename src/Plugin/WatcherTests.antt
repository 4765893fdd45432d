-- ===== src/Plugin/WatcherTests.antt =====
-- The watcher of local changes at a concrete sequence of events.
use obsidian_syncserver.Prelude.{◌+◌, ◌≤◌, ◌≡◌, ◌⊎◌, true, false, List, [], ◌∷◌, arith}
use obsidian_syncserver.Plugin.LocalChanges.{
  quiet_ms, idle, Event, touched, fired, meet, touch, settle,
}
use obsidian_syncserver.Plugin.LocalChanges.Quiet.{
  Valid, run, pending, passes-le-touches, settle-quiet,
}

-- Two saves, and a timer that meets a held gate once.
abbrev events : List Event
events = touched 1000 true ∷ (touched 2000 true ∷ (fired 7000 true ∷ []))

events-Valid : Valid quiet_ms idle 0 events
unfolding meet touch settle
events-Valid = (omega arith, (omega arith, (omega arith, tt)))

passes-le-touches_example :
    (run quiet_ms idle events).passes + pending (run quiet_ms idle events).handle ≤ 2
passes-le-touches_example = passes-le-touches quiet_ms events events-Valid

settle-quiet_example :
    ((settle quiet_ms 12000 false (run quiet_ms idle events)).passes
      ≡ (run quiet_ms idle events).passes)
    ⊎ ((false ≡ false) × (2000 + quiet_ms ≤ 12000))
settle-quiet_example =
    settle-quiet quiet_ms events 12000 false events-Valid
      (unfold meet in unfold touch in unfold settle in omega arith)
