-- ===== src/Bus.antt =====
-- How messages between agents reach the operator and the agents: nervous_system/agent_wake.py,
-- nervous_system/agent_messages_poll.py and nervous_system/agent_messages_realtime.py.
pub mod Wake
pub mod Routing
pub mod Poll
pub mod Realtime
mod Samples
