-- ===== src/Session/Cache/Events.antt =====
-- `SessionCache._apply_event` of cache.py: what each pushed event does to the cache.
pub mod Mirror
pub mod Index
pub mod Marking
pub mod Removal
pub mod Branches
pub mod Refines
use herdr_bridge.Prelude.{
  ℕ, Bool, true, false, not, ◌&&◌, ◌||◌, Option, none, some, List, [], ◌∷◌, String, ◌==◌, text_key,
  if◌then◌else◌,
}
use herdr_bridge.Tasks.Dict.{Dict, get, put, pop, join}
use herdr_bridge.Session.Cache.{
  Value, null, text, Fields, AgentStatus, unknown, AgentInfo, text_at, filled, status_of,
  to_agent_info, agent_record, PaneState, Focus, Timer, at_once, debounced, SessionCache,
  request_rebuild, agent_of,
}

-- The data of an event: its own fields, and data.get("pane", {}).
pub record EventData : Type 0 where
  pub fields : Fields
  pub pane : Fields

abbrev pub store_agent : String → AgentInfo → SessionCache → SessionCache
store_agent pane info s = record s {
  agents = put info.agent_id info s.agents;
  pane_to_terminal = put pane info.agent_id s.pane_to_terminal;
}

abbrev pub hosted_as : Option String → Option String → Fields → Option AgentInfo
hosted_as none agent rec = none
hosted_as (some terminal) none rec = none
hosted_as (some terminal) (some agent) rec = agent_record rec

-- if pane.get("terminal_id") and pane.get("agent")
abbrev pub hosted : Fields → Option AgentInfo
hosted rec = hosted_as (filled (text_at "terminal_id" rec)) (filled (text_at "agent" rec)) rec

abbrev pub store_hosted : String → Option AgentInfo → SessionCache → SessionCache
store_hosted pane none s = s
store_hosted pane (some info) s = store_agent pane info s

abbrev pub created : Option String → Fields → SessionCache → SessionCache
created none pane s = s
created (some id) pane s =
    request_rebuild at_once
      (store_hosted id (hosted pane) (record s { panes = put id pane s.panes }))

unfoldable pub pane_created : EventData → SessionCache → SessionCache
pane_created e s = created (filled (text_at "pane_id" e.pane)) e.pane s

abbrev pub drop_agent : Option String → SessionCache → SessionCache
drop_agent none s = s
drop_agent (some terminal) s = record s { agents = pop terminal s.agents }

abbrev pub close_pane : Option String → SessionCache → SessionCache
close_pane none s = s
close_pane (some id) s = request_rebuild debounced (
    drop_agent (filled (get id s.pane_to_terminal))
      (record s { panes = pop id s.panes; pane_to_terminal = pop id s.pane_to_terminal }))

unfoldable pub pane_closed : EventData → SessionCache → SessionCache
pane_closed e s = close_pane (filled (text_at "pane_id" e.fields)) s

abbrev pub with_status : AgentStatus → AgentInfo → AgentInfo
with_status status a = record a { status = status }

abbrev pub set_status : AgentStatus → String → Option AgentInfo → SessionCache → SessionCache
set_status status terminal none s = s
set_status status terminal (some a) s = record s {
  agents = put terminal (with_status status a) s.agents;
}

-- if terminal and terminal in self._agents
abbrev pub mark : AgentStatus → Option String → SessionCache → SessionCache
mark status none s = s
mark status (some terminal) s = set_status status terminal (get terminal s.agents) s

-- pane_id or ""
abbrev pub or_empty : Option String → String
or_empty none = ""
or_empty (some t) = t

abbrev pub terminal_in : Option String → SessionCache → Option String
terminal_in pane s = filled (get (or_empty pane) s.pane_to_terminal)

unfoldable pub pane_exited : EventData → SessionCache → SessionCache
pane_exited e s = mark unknown (terminal_in (text_at "pane_id" e.fields) s) s

unfoldable pub pane_focused : EventData → SessionCache → SessionCache
pane_focused e s = record s {
  focus = record s.focus {
    focused_pane = text_at "pane_id" e.fields;
    focused_workspace = text_at "workspace_id" e.fields;
  };
}

-- a or b
abbrev pub text_else : Option String → Option String → Option String
text_else none b = b
text_else (some a) b = some a

abbrev pub reported : String → EventData → Option String
reported key e = text_else (filled (text_at key e.fields)) (text_at key e.pane)

abbrev pub note_status : String → ℕ → AgentStatus → Option String → SessionCache → SessionCache
note_status event now status none s = s
note_status event now status (some pane) s = record s {
  pane_state =
      put pane
        (record { last_status = some status; last_event_ts = some now; last_event = some event })
        s.pane_state;
}

abbrev pub status_value : Option String → Value
status_value none = null
status_value (some t) = text t

abbrev pub merged : Fields → EventData → Fields
merged pane e = put "agent_status" (status_value (reported "agent_status" e)) (join pane e.pane)

abbrev pub store_own : Option AgentInfo → SessionCache → SessionCache
store_own none s = s
store_own (some info) s = store_agent info.pane_id info s

-- A detected agent in a pane that has no agent yet.
abbrev pub detect : Option Fields → EventData → SessionCache → SessionCache
detect none e s = s
detect (some pane) e s = store_own (hosted (merged pane e)) s

abbrev pub report : String → Option AgentInfo → EventData → SessionCache → SessionCache
report event none e s =
    if event == "pane_agent_detected"
    then detect (get (or_empty (reported "pane_id" e)) s.panes) e s
    else s
report event (some a) e s =
    mark (status_of (reported "agent_status" e)) (terminal_in (reported "pane_id" e) s) s

unfoldable pub agent_reported : String → ℕ → EventData → SessionCache → SessionCache
agent_reported event now e s =
    let noted =
      note_status event now (status_of (reported "agent_status" e)) (filled (reported "pane_id" e))
        s in
    report event (agent_of noted.agents (terminal_in (reported "pane_id" e) noted)) e noted

-- SessionCache._apply_event
unfoldable pub apply_event : ℕ → String → EventData → SessionCache → SessionCache
apply_event now event e s =
    if event == "pane_created"
    then pane_created e s
    else if event == "pane_closed"
    then pane_closed e s
    else if event == "pane_exited"
    then pane_exited e s
    else if event == "pane_focused"
    then pane_focused e s
    else if event == "pane_agent_detected" || event == "pane_agent_status_changed"
    then agent_reported event now e s
    else s
