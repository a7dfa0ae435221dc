-- ===== src/CaiDaemon.antt =====
-- The cc-cai daemon (cc_cai_daemon/): it polls the inbox of `cai`, classifies each message, and
-- answers it silently or escalates it to the operator, under a kill switch.
pub mod Classifier
pub mod World
pub mod KillSwitch
pub mod Handlers
pub mod Cycle
mod Samples
