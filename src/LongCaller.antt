-- ===== src/LongCaller.antt =====
-- The watchdog that ends callers of Claude which run in a loop, and its probes of the Mac Studio.
pub mod Decision
pub mod Sweep
pub mod Endpoint
mod Samples
