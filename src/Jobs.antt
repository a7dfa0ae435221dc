-- ===== src/Jobs.antt =====
-- The table `jobs`: the dispatcher of wingmen_orch.py, and the sweep that retries paused jobs.
pub mod Table
pub mod Dispatch
pub mod Run
pub mod Retry
mod Samples
