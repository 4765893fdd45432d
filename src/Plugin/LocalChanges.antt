-- ===== src/Plugin/LocalChanges.antt =====
-- plugin/src/local-changes.ts: the watcher that starts a pass once the vault has been still. The
-- timer's handle is the time it is due at, in milliseconds; `deps.run` adds to the passes started.
pub mod Quiet
use obsidian_syncserver.Prelude.{
  ℕ, ◌+◌, Bool, true, false, not, Option, none, some, List, [], ◌∷◌, if◌then◌else◌,
}

abbrev pub quiet_ms : ℕ
quiet_ms = 5000

unfoldable pub auto_sync_by_default : Bool → Bool
auto_sync_by_default is_mobile = not is_mobile

pub record Watcher : Type 0 where
  pub handle : Option ℕ
  pub passes : ℕ

abbrev pub idle : Watcher
idle = record { handle = none; passes = 0 }

-- `clear`
abbrev pub disarm : Watcher → Watcher
disarm w = record w { handle = none }

abbrev pub arm : ℕ → ℕ → Watcher → Watcher
arm quiet t w = record w { handle = some (t + quiet) }

-- The function given to the timer, at time `t`.
unfoldable pub settle : ℕ → ℕ → Bool → Watcher → Watcher
settle quiet t busy w =
    let still = disarm w in
    if busy then arm quiet t still else record still { passes = still.passes + 1 }

unfoldable pub touch : ℕ → ℕ → Bool → Watcher → Watcher
touch quiet t enabled w = if not enabled then disarm w else arm quiet t w

-- What the watcher meets: a change of the vault with the setting then, the timer with the gate then,
-- and the plugin's unloading.
pub data Event : Type 0 where
  touched : ℕ → Bool → Event
  fired : ℕ → Bool → Event
  stopped : Event

unfoldable pub meet : ℕ → Watcher → Event → Watcher
meet quiet w (touched t enabled) = touch quiet t enabled w
meet quiet w (fired t busy) = settle quiet t busy w
meet quiet w stopped = disarm w
