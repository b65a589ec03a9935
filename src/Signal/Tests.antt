-- ===== src/Signal/Tests.antt =====
-- Runs of the Signal modules at concrete inputs, and the theorems applied there.
mod Data
mod Acks
mod Daemons
mod Sends
