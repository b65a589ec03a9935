-- ===== src/Lib.antt =====
-- herdr-bridge: coordination of AI coding agents over Herdr (src/herdr_bridge).
--
-- The program lets command towers (one per project) wake each other, share a board of tasks and track
-- the agents of a Herdr session. This library models its state machines and stores.
--
-- Prelude: shared names; Prelude/Tests the Boolean tests, Prelude/Lists lists with native lengths,
--   Prelude/Keys the interface of keys that are compared, Prelude/Outcome calls that may raise.
-- Table: a SQLite table with a primary key and an expiry column, as the two stores under
--   src/herdr_bridge/orchestration use one: SELECT by key, INSERT … ON CONFLICT DO UPDATE, and DELETE
--   of the expired rows. Table/Laws says what a read finds after them.
-- Signal: the wake messages.
--   Signal/State, Signal/Ack: the ACK state machine of src/herdr_bridge/orchestration/memory.py
--     (SIGNAL_STATE_TRANSITIONS, _validate_signal_transition, _write_signal_state, the mark_*
--     functions). A call takes the table of one project and returns its reply with the new table. Sender
--     and daemon are processes of their own: a `Turn` gives what the others do before each access.
--   Signal/Store: src/herdr_bridge/orchestration/signal_state_store.py.
--   Signal/Envelope: src/herdr_bridge/signal/envelope.py; HMAC, SHA-256 and JSON are parameters.
--   Signal/Daemon: src/herdr_bridge/signal/daemon.py: the nonce cache, handle_connection, the batch task
--     (_run_batch_after_delay, _process_batch). A daemon is a record; each handler returns the new one.
--   Signal/Outbound: src/herdr_bridge/signal/outbound.py: the retries, the polling loop and send.
--   Signal/Tests: runs at concrete inputs.
--
-- Delivery: the progress of a dispatched task.
--   Delivery/State, Delivery/Machine: `update_delivery_state` and `get_delivery_state` of
--     src/herdr_bridge/orchestration/memory.py, with their transition table. The memory layer's answer to
--     a terminal summary is part of the `Turn`, with what other processes do before each access.
--   Delivery/Store: src/herdr_bridge/orchestration/delivery_state_store.py.
--
-- Tasks: the board of tasks and the pool.
--   Tasks/Dict, Tasks/Value: dictionaries and JSON values.
--   Tasks/Transition, Tasks/Lifecycle: apply_transition of src/herdr_bridge/orchestration/task_board.py.
--   Tasks/Board: the projection of events there (_project_event, project_all_events, refresh_snapshot,
--     reconcile_snapshot_from_events); `str.lower` is a parameter.
--   Tasks/Pool: src/herdr_bridge/task_pool.py; a call of `store_memory` is an outcome in a `Log`.
--   Tasks/Reaper: _scan_and_reap_expired_claims of src/herdr_bridge/signal/daemon.py.
--   The operations of the pool hold one lock from their first access of the snapshot to their last, so
--     each is one step on the file; the scan reads without the lock, so others act between its steps.
--
-- Fleet: src/herdr_bridge/fleet_health.py: the anomalies of a board and, in Fleet/Alarms, which of them
--   are raised again. Time stamps, float() and repr() are parameters.
--
-- Gates: src/herdr_bridge/gates.py: GateExecutor with its cache; Gates/Checks says what a passed check
--   means. What the file holds at each call is an argument.
--
-- Binding: src/herdr_bridge/acp/binding.py: the ledger of dispatches and its reconciliation.
--
-- Session: the tool layer over a Herdr session.
--   Controls: actions.py, the leases for the control of panes (ControlHandle, _ControlRegistry).
--   Cache: cache.py, the mirror of the session: Cache/Events is _apply_event, Cache/Snapshot is
--     refresh_snapshot, Cache/Rebuild is _rebuild, stop, _consistency_tick and _on_conn_state.
--   Client: client.py, requests and their errors; Client/Reader is the thread of subscribe(), as a
--     function of what each of its connections does.
--   Actions: actions.py over these, and the protocol tests of schema.py: reading, sending, status and
--     control; Actions/Wait is wait_until.
--
-- Acp: src/herdr_bridge/acp: Guard is workdir_guard.py, Sessions the sessions of actions.py, whose
--   ensure_session is cut into steps at the places where another thread may come between. Events is
--   events.py, Prompts the prompts of transport.py, Reports
--   the side reports of router.py, taken one call after another.
--
-- Leader: src/herdr_bridge/leader/permissions.py, the rules by which the Leader may write a file.
--
-- Interaction: the scan of the daemon calls `unclaim` of the pool. `send` (Outbound) marks the ACK row in
-- the table of the target project, the daemon marks the same row, and both look up messages in flight
-- there; the marks are those of Signal/Ack. The reader of the client calls the cache for each event and each
-- reconnection; a rebuild of the cache makes a new subscription, whose reader this is.
--
-- Times are milliseconds since the epoch, as numbers; a comparison of a difference of times is written
-- as a comparison of sums. The polling loop takes fuel: its timeout of 13 s and its interval of 0.1 s
-- allow 131 rounds, and any fuel above 130 is enough where the clock moves by the interval in each
-- round. The retry loops are bounded in the program itself.
--
-- Not modelled: sockets, subprocesses, the file system, the JSON and SQLite libraries, logging, the
-- memory layer over the third-party package RemaGraph, connect() and the
-- request schemas, the rest of the leader harness, the rest of the ACP plane and the command line.
mod Prelude
mod Table
pub mod Signal
pub mod Delivery
pub mod Tasks
pub mod Fleet
pub mod Gates
pub mod Binding
pub mod Session
pub mod Acp
pub mod Leader
