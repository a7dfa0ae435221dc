-- ===== src/SqlLint.antt =====
-- The migration linter: scripts/check_additive_migration.py.
pub mod Statements
pub mod Lines
mod Samples
