-- ===== src/Policy.antt =====
-- pkg/policy: rules, snapshots, the engine, the decision cache and the watcher.
pub mod Glob
pub mod Rules
pub mod Snapshot
pub mod Engine
pub mod Cache
pub mod Wire
pub mod Watcher
mod Samples
