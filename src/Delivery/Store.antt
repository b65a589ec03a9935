-- ===== src/Delivery/Store.antt =====
-- orchestration/delivery_state_store.py: one row for each (project_id, task_id, agent_id).
use herdr_bridge.Prelude.{
  ℕ, ◌+◌, ◌*◌, ◌≡◌, refl, ◌∙◌, false, Option, none, some, List, String, ◌==◌, triple_key, ltb,
  arith, if◌then◌else◌,
}
use herdr_bridge.Table.{
  find, upsert, sweep, IsKeyed, kept, merged, find-upsert, find-sweep, sweep-IsKeyed,
  upsert-IsKeyed,
}
use herdr_bridge.Delivery.State.{State}

-- The primary key: project, task, agent.
abbrev pub TaskKey : Type 0
TaskKey = String × String × String

-- `context` is the text of `json.dumps(context)`, and none for None and for an empty dictionary.
pub record Row : Type 0 where
  pub project_id : String
  pub task_id : String
  pub agent_id : String
  pub state : State
  pub context : Option String
  pub correlation : Option String
  pub created_at : ℕ
  pub updated_at : ℕ
  pub expires_at : ℕ

abbrev pub Rows : Type 0
Rows = List Row

-- DEFAULT_TTL_SECONDS, in milliseconds
abbrev pub default_ttl : ℕ
default_ttl = 24 * 3600 * 1000

abbrev pub row_key : Row → TaskKey
row_key r = (r.project_id, r.task_id, r.agent_id)

abbrev pub row_expiry : Row → ℕ
row_expiry r = r.expires_at

-- The VALUES of the INSERT.
abbrev pub inserted : ℕ → ℕ → TaskKey → State → Option String → Option String → Row
inserted now ttl k state context correlation = record {
  project_id = k.0;
  task_id = k.1;
  agent_id = k.2;
  state = state;
  context = context;
  correlation = correlation;
  created_at = now;
  updated_at = now;
  expires_at = now + ttl;
}

-- DO UPDATE SET: all columns but the key and `created_at`.
abbrev pub updated : Row → Row → Row
updated excluded row = record row {
  state = excluded.state;
  context = excluded.context;
  correlation = excluded.correlation;
  updated_at = excluded.updated_at;
  expires_at = excluded.expires_at;
}

unfoldable pub write_state : ℕ → ℕ → TaskKey → State → Option String → Option String → Rows → Rows
write_state now ttl k state context correlation t =
    let excluded = inserted now ttl k state context correlation in
    sweep row_expiry now (upsert row_key excluded (updated excluded) t)

abbrev pub read_state : TaskKey → Rows → Option Row
read_state k t = find row_key k t

abbrev pub IsTable : Rows → Type 0
IsTable t = IsKeyed row_key t

-- The row that a write leaves, from the row that was there.
abbrev pub written : ℕ → ℕ → TaskKey → State → Option String → Option String → Option Row → Row
written now ttl k state context correlation old =
    let new = inserted now ttl k state context correlation in merged new (updated new) old

module _ (now ttl : ℕ) (k : TaskKey) (state : State) (context correlation : Option String) where
  written_stays :
      (old : Option Row)
      → ltb (written now ttl k state context correlation old).expires_at now ≡ false
  written_stays none = ground arith
  written_stays (some r) = ground arith

  pub state-written :
      (old : Option Row) → (written now ttl k state context correlation old).state ≡ state
  state-written none = refl
  state-written (some r) = refl

  -- After a write, a read of its key finds the merged row, with the time of the first write as its
  -- creation time, and a read of any other key finds what it found before, unless that has expired.
  pub read-write_state :
      (j : TaskKey) (t : Rows)
      → IsTable t
      → read_state j (write_state now ttl k state context correlation t) ≡ (
          if k == j
          then some (written now ttl k state context correlation (read_state k t))
          else kept row_expiry now (read_state j t))
  unfolding write_state
  read-write_state j t u =
      let new = inserted now ttl k state context correlation in
      rw
        (find-sweep row_key row_expiry j now _
          (upsert-IsKeyed row_key new (updated new) t (λ r. refl) u))
        (rw (find-upsert row_key j new (updated new) t (λ r. refl))
          (ground (arith, triple_key.eqb_iff k j, written_stays (read_state k t))))

  -- A write keeps the primary key.
  pub write_state-IsTable :
      (t : Rows) → IsTable t → IsTable (write_state now ttl k state context correlation t)
  unfolding write_state
  write_state-IsTable t u =
      let new = inserted now ttl k state context correlation in
      sweep-IsKeyed row_key row_expiry now _
        (upsert-IsKeyed row_key new (updated new) t (λ r. refl) u)

  pub read-write_self :
      (t : Rows)
      → IsTable t
      → read_state k (write_state now ttl k state context correlation t)
        ≡ some (written now ttl k state context correlation (read_state k t))
  read-write_self t u = read-write_state k t u ∙ rw ((triple_key.eqb_iff k k).1 refl)
