-- ===== src/Signal.antt =====
-- Herdr Bridge Signal: the wake messages between towers (signal/*.py), the ACK state machine
-- (the second half of orchestration/memory.py) and its store (orchestration/signal_state_store.py).
pub mod State
pub mod Store
pub mod Ack
pub mod Envelope
pub mod Daemon
pub mod Outbound
mod Tests
