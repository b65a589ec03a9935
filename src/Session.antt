-- ===== src/Session.antt =====
-- The tool layer over a Herdr session: src/herdr_bridge/actions.py, cache.py and client.py.
pub mod Controls
pub mod Cache
pub mod Client
pub mod Actions
mod Tests
