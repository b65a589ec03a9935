-- ===== src/Tasks.antt =====
-- The task board of a project and the pool that agents claim tasks from.
pub mod Dict
pub mod Value
pub mod Transition
pub mod Lifecycle
pub mod Board
pub mod Pool
pub mod Reaper
mod Tests
