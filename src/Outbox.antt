-- ===== src/Outbox.antt =====
-- What leaves for Telegram: nervous_system/tg_out.py.
pub mod Chunks
pub mod Queue
pub mod Telegram
pub mod Delivery
pub mod Drainers
mod Samples
