-- ===== src/Table.antt =====
-- A SQLite table with a primary key and an `expires_at` column, as
-- orchestration/signal_state_store.py and orchestration/delivery_state_store.py use one.
mod Ops
mod Laws
unfoldable pub use Ops.{find, upsert, sweep}
pub use Laws.*
