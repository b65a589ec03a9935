-- ===== src/Signal/Store.antt =====
-- orchestration/signal_state_store.py: one row for each message. Times are counted in
-- milliseconds since the epoch.
pub mod Writes
pub mod History
pub mod Queries
use herdr_bridge.Prelude.{
  ℕ, ◌+◌, ◌-◌, ◌*◌, Bool, not, ◌&&◌, Option, none, some, List, [], ◌∷◌, String, ◌==◌, text_key, ltb,
  leb, take, if◌then◌else◌,
}
use herdr_bridge.Table.{find, upsert, sweep}
use herdr_bridge.Signal.State.{State, completed, same}

pub record Row : Type 0 where
  pub message_id : String
  pub from_project : String
  pub to_project : String
  pub inbox_ref : String
  pub state : State
  pub attempt_count : ℕ
  pub accepted_at : Option ℕ
  pub injected_at : Option ℕ
  pub seen_at : Option ℕ
  pub created_at : ℕ
  pub updated_at : ℕ
  pub expires_at : ℕ

abbrev pub Rows : Type 0
Rows = List Row

-- DEFAULT_TTL_SECONDS, DEFAULT_INFLIGHT_TIMEOUT_SECONDS
abbrev pub default_ttl : ℕ
default_ttl = 24 * 3600 * 1000

abbrev pub default_inflight_timeout : ℕ
default_inflight_timeout = 30 * 60 * 1000

-- The keyword arguments of `write_state`.
pub record Fields : Type 0 where
  pub from_project : String
  pub to_project : String
  pub inbox_ref : String
  pub state : State
  pub attempt_count : Option ℕ
  pub accepted_at : Option ℕ
  pub injected_at : Option ℕ
  pub seen_at : Option ℕ

-- COALESCE(a, b)
abbrev pub coalesce {ℓ} : {A : Type ℓ} → Option A → Option A → Option A
coalesce none b = b
coalesce (some a) b = some a

abbrev pub or_zero : Option ℕ → ℕ
or_zero none = 0
or_zero (some n) = n

-- The VALUES of the INSERT: `excluded`, where a row is there already.
abbrev pub inserted : ℕ → ℕ → String → Fields → Row
inserted now ttl m f = record {
  message_id = m;
  from_project = f.from_project;
  to_project = f.to_project;
  inbox_ref = f.inbox_ref;
  state = f.state;
  attempt_count = or_zero f.attempt_count;
  accepted_at = f.accepted_at;
  injected_at = f.injected_at;
  seen_at = f.seen_at;
  created_at = now;
  updated_at = now;
  expires_at = now + ttl;
}

-- DO UPDATE SET. `excluded.attempt_count` is never NULL, so its COALESCE is its first argument.
abbrev pub updated : Row → Row → Row
updated excluded row = record row {
  state = excluded.state;
  attempt_count = or_zero (coalesce (some excluded.attempt_count) (some row.attempt_count));
  accepted_at = coalesce excluded.accepted_at row.accepted_at;
  injected_at = coalesce excluded.injected_at row.injected_at;
  seen_at = coalesce excluded.seen_at row.seen_at;
  updated_at = excluded.updated_at;
  expires_at = excluded.expires_at;
}

abbrev pub row_key : Row → String
row_key r = r.message_id

abbrev pub row_expiry : Row → ℕ
row_expiry r = r.expires_at

-- The upsert and the DELETE of the expired rows, in one transaction.
unfoldable pub write_state : ℕ → ℕ → String → Fields → Rows → Rows
write_state now ttl m f t =
    let excluded = inserted now ttl m f in
    sweep row_expiry now (upsert row_key excluded (updated excluded) t)

abbrev pub read_state : String → Rows → Option Row
read_state m t = find row_key m t

-- The WHERE clause of `find_active_by_target`. The column `updated_at >= cutoff` with
-- `cutoff = now - timeout` is compared as `now <= updated_at + timeout`.
abbrev pub is_active : ℕ → ℕ → String → String → String → Row → Bool
is_active now timeout to_project inbox_ref exclude r =
    r.to_project == to_project
    && r.inbox_ref == inbox_ref
    && not (same r.state completed)
    && leb now (r.updated_at + timeout)
    && not (r.message_id == exclude)

abbrev pub newer : Row → Option Row → Row
newer r none = r
newer r (some best) = if ltb r.updated_at best.updated_at then best else r

-- ORDER BY updated_at DESC LIMIT 1, over the rows that pass a test.
unfoldable pub latest : (Row → Bool) → Rows → Option Row
latest p [] = none
latest p (r ∷ t) = let best = latest p t in if p r then some (newer r best) else best

-- exclude_message_id or ""
abbrev pub or_empty : Option String → String
or_empty none = ""
or_empty (some m) = m

unfoldable pub find_active_by_target : ℕ → ℕ → String → String → Option String → Rows → Option Row
find_active_by_target now timeout to_project inbox_ref exclude t =
    latest (is_active now timeout to_project inbox_ref (or_empty exclude)) t

-- ORDER BY updated_at DESC: insertion into a list that is in this order.
unfoldable pub insert_desc : Row → Rows → Rows
insert_desc r [] = r ∷ []
insert_desc r (x ∷ xs) = if ltb r.updated_at x.updated_at then x ∷ insert_desc r xs else r ∷ x ∷ xs

unfoldable pub sort_desc : Rows → Rows
sort_desc [] = []
sort_desc (r ∷ t) = insert_desc r (sort_desc t)

unfoldable pub list_recent : ℕ → Rows → Rows
unfolding sort_desc insert_desc
list_recent limit t = take limit (sort_desc t)
