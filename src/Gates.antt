-- ===== src/Gates.antt =====
-- The gates on irreversible operations, on writes to client logins and on the health agent: scripts/lib/.
pub mod Authorization
pub mod AuthWrite
pub mod Boundaries
mod Samples
