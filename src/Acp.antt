-- ===== src/Acp.antt =====
-- The ACP plane, src/herdr_bridge/acp: workdir_guard.py, the sessions of actions.py, the reader of
-- events.py and the prompts of transport.py.
pub mod Guard
pub mod Sessions
pub mod Events
pub mod Prompts
pub mod Reports
