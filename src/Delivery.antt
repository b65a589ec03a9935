-- ===== src/Delivery.antt =====
-- The delivery state machine: the section "Delivery State Machine" of orchestration/memory.py and
-- its store, orchestration/delivery_state_store.py.
pub mod State
pub mod Store
pub mod Machine
mod Tests
