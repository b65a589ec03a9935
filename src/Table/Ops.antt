-- ===== src/Table/Ops.antt =====
-- A SQLite table with a primary key and an `expires_at` column, as
-- orchestration/signal_state_store.py and orchestration/delivery_state_store.py use one: the
-- statements INSERT … ON CONFLICT DO UPDATE, SELECT … WHERE key = ? and
-- DELETE … WHERE expires_at < ?. A table is the list of its rows.
use herdr_bridge.Prelude.{ℕ, Option, none, some, List, [], ◌∷◌, Key, ◌==◌, ltb, if◌then◌else◌}

module _ {ℓ κ} {K : Type κ} {R : Type ℓ} ⦃e : Key K⦄ (key : R → K) where
  -- SELECT … WHERE key = k
  unfoldable pub find : K → List R → Option R
  find k [] = none
  find k (r ∷ t) = if key r == k then some r else find k t

  -- INSERT new ON CONFLICT(key) DO UPDATE: `merge` is the update of the row that is there.
  unfoldable pub upsert : R → (R → R) → List R → List R
  upsert new merge [] = new ∷ []
  upsert new merge (r ∷ t) = if key r == key new then merge r ∷ t else r ∷ upsert new merge t

module _ {ℓ} {R : Type ℓ} (expires : R → ℕ) where
  -- DELETE … WHERE expires_at < now
  unfoldable pub sweep : ℕ → List R → List R
  sweep now [] = []
  sweep now (r ∷ t) = let rest = sweep now t in if ltb (expires r) now then rest else r ∷ rest
