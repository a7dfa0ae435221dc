-- ===== src/Council.antt =====
-- The council's execution of specs: nervous_system/council_executor.py, and of council_commands.py
-- `cmd_execute` and `cmd_concur`.
pub mod World
pub mod Executor
pub mod Commands
mod Samples
