-- ===== src/Session/Cache/Snapshot.antt =====
-- `SessionCache.refresh_snapshot` of cache.py: the cache is overwritten with a snapshot of the session.
pub mod Refines
use herdr_bridge.Prelude.{ℕ, Bool, true, false, Option, none, some, List, [], ◌∷◌, String}
use herdr_bridge.Tasks.Dict.{Dict, put}
use herdr_bridge.Session.Cache.{Fields, AgentInfo, text_at, agent_record, Focus, SessionCache}
use herdr_bridge.Session.Cache.Events.{EventData, store_agent, apply_event}

-- The answer to "session.snapshot".
pub record Snapshot : Type 0 where
  pub panes : List Fields
  pub agents : List Fields
  pub focus : Focus

abbrev pub added_first :
    (Dict Fields → Option (Dict Fields))
    → Fields
    → Option String
    → Dict Fields
    → Option (Dict Fields)
added_first next p none d = none
added_first next p (some id) d = next (put id p d)

-- {p["pane_id"]: p for p in panes}, or KeyError
unfoldable pub panes_by_id : List Fields → Dict Fields → Option (Dict Fields)
panes_by_id [] = some
panes_by_id (p ∷ l) = added_first (panes_by_id l) p (text_at "pane_id" p)

-- A record without an id raises KeyError, with the earlier ones stored.
abbrev pub stored_first :
    (SessionCache → Bool × SessionCache) → Option AgentInfo → SessionCache → Bool × SessionCache
stored_first next none s = (false, s)
stored_first next (some a) s = next (store_agent a.pane_id a s)

-- for rec in snap.get("agents", [])
unfoldable pub index_agents : List Fields → SessionCache → Bool × SessionCache
index_agents [] = λ s. (true, s)
index_agents (rec ∷ l) = stored_first (index_agents l) (agent_record rec)

abbrev pub emptied : Dict Fields → SessionCache → SessionCache
emptied panes s = record s { panes = panes; agents = []; pane_to_terminal = [] }

abbrev pub focused : Focus → Bool × SessionCache → Bool × SessionCache
focused focus (false, s) = (false, s)
focused focus (true, s) = (true, record s { focus = focus })

abbrev pub overwrite : Snapshot → Option (Dict Fields) → SessionCache → Bool × SessionCache
overwrite snap none s = (false, s)
overwrite snap (some panes) s = focused snap.focus (index_agents snap.agents (emptied panes s))

-- SessionCache.refresh_snapshot, with the answer of the client, if there is one: whether it returns, and
-- the cache that it leaves.
unfoldable pub refresh_snapshot : Option Snapshot → SessionCache → Bool × SessionCache
refresh_snapshot none s = (false, s)
refresh_snapshot (some snap) s = overwrite snap (panes_by_id snap.panes []) s

-- The events that arrive one after the other.
abbrev pub Pushed : Type 0
Pushed = ℕ × String × EventData

unfoldable pub apply_events : List Pushed → SessionCache → SessionCache
apply_events [] s = s
apply_events ((now, event, e) ∷ l) s = apply_events l (apply_event now event e s)
