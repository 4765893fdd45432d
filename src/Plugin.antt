-- ===== src/Plugin.antt =====
-- The plugin (plugin/src): what it decides before it writes anything.
pub mod Rename
pub mod Wire
pub mod Reconcile
pub mod Remap
pub mod Unseen
pub mod Tree
pub mod LocalChanges
pub mod Conflict
mod Tests
mod WalkTests
mod WatcherTests
mod ConflictTests
