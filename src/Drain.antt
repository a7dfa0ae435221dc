-- ===== src/Drain.antt =====
-- The cc-ihsanos drain worker (ihsanos_drain/): it finds the rulings that are granted, and executes
-- each in a worktree behind its gates, up to an open pull request.
pub mod Grant
pub mod Refs
pub mod Runner
pub mod Cycle
mod Samples
