-- ===== src/Session/Cache.antt =====
-- The session cache of cache.py: the state that `SessionCache` keeps, and its read operations. Every method
-- holds the lock of the cache while it touches these fields.
pub mod Events
pub mod Snapshot
pub mod Rebuild
use herdr_bridge.Prelude.{
  ℕ, Bool, true, false, not, ◌&&◌, ◌||◌, Option, none, some, List, [], ◌∷◌, String, ◌==◌, text_key,
  if◌then◌else◌,
}
use herdr_bridge.Tasks.Dict.{Dict, get, put, pop}

-- A field of a record from herdr. Nested objects are only passed on, so they stand as their text.
pub data Value : Type 0 where
  null : Value
  text : String → Value
  flag : Bool → Value
  object : String → Value

-- A pane or agent record of the wire: dict[str, Any].
abbrev pub Fields : Type 0
Fields = Dict Value

pub data AgentStatus : Type 0 where
  idle : AgentStatus
  working : AgentStatus
  blocked : AgentStatus
  done : AgentStatus
  unknown : AgentStatus
  agent_prompt_stalled : AgentStatus

pub record AgentInfo : Type 0 where
  pub agent_id : String
  pub brand : String
  pub status : AgentStatus
  pub pane_id : String
  pub workspace_id : String
  pub tab_id : String
  pub cwd : Option Value
  pub session_ref : Option Value
  pub focused : Bool

-- rec.get(key) of a field that holds a text.
abbrev pub text_value : Option Value → Option String
text_value (some (text t)) = some t
text_value v = none

abbrev pub text_at : String → Fields → Option String
text_at key rec = text_value (get key rec)

-- A text that is there and is not empty.
abbrev pub filled : Option String → Option String
filled none = none
filled (some t) = if t == "" then none else some t

abbrev pub text_or : String → Option String → String
text_or default none = default
text_or default (some t) = t

abbrev pub is_true : Option Value → Bool
is_true none = false
is_true (some null) = false
is_true (some (text t)) = not (t == "")
is_true (some (flag b)) = b
is_true (some (object t)) = not (t == "{}")

-- _status
unfoldable pub status_of : Option String → AgentStatus
status_of none = unknown
status_of (some t) =
    if t == "idle"
    then idle
    else if t == "working"
    then working
    else if t == "blocked"
    then blocked
    else if t == "done"
    then done
    else if t == "agent_prompt_stalled"
    then agent_prompt_stalled
    else unknown

-- _to_agent_info, for a record that has both ids.
unfoldable pub agent_info : String → String → Fields → AgentInfo
agent_info terminal pane rec = record {
  agent_id = terminal;
  brand = text_or "unknown" (filled (text_at "agent" rec));
  status = status_of (text_at "agent_status" rec);
  pane_id = pane;
  workspace_id = text_or "" (text_at "workspace_id" rec);
  tab_id = text_or "" (text_at "tab_id" rec);
  cwd = get "cwd" rec;
  session_ref = get "agent_session" rec;
  focused = is_true (get "focused" rec);
}

-- rec["terminal_id"] and rec["pane_id"] raise KeyError.
abbrev pub to_agent_info : Option String → Option String → Fields → Option AgentInfo
to_agent_info none pane rec = none
to_agent_info (some terminal) none rec = none
to_agent_info (some terminal) (some pane) rec = some (agent_info terminal pane rec)

abbrev pub agent_record : Fields → Option AgentInfo
agent_record rec = to_agent_info (text_at "terminal_id" rec) (text_at "pane_id" rec) rec

-- An entry of `_pane_state`; a consistency tick makes entries without a status.
pub record PaneState : Type 0 where
  pub last_status : Option AgentStatus
  pub last_event_ts : Option ℕ
  pub last_event : Option String

pub record Focus : Type 0 where
  pub focused_workspace : Option String
  pub focused_tab : Option String
  pub focused_pane : Option String

-- A rebuild timer that was started: at once, or after half a second.
pub data Timer : Type 0 where
  at_once : Timer
  debounced : Timer

-- Subscriptions are objects, told apart by a number.
pub record SessionCache : Type 0 where
  pub panes : Dict Fields
  pub agents : Dict AgentInfo
  pub pane_to_terminal : Dict String
  pub focus : Focus
  pub pane_state : Dict PaneState
  pub subscription : Option ℕ
  pub rebuild_timer : Option Timer
  pub stopped : Bool
  pub drift_count : ℕ
  pub tick_count : ℕ

abbrev pub new_cache : SessionCache
new_cache = record {
  panes = [];
  agents = [];
  pane_to_terminal = [];
  focus = record { focused_workspace = none; focused_tab = none; focused_pane = none };
  pane_state = [];
  subscription = none;
  rebuild_timer = none;
  stopped = false;
  drift_count = 0;
  tick_count = 0;
}

-- self._agents.get(terminal) if terminal else None
abbrev pub agent_of : Dict AgentInfo → Option String → Option AgentInfo
agent_of agents none = none
agent_of agents (some terminal) = get terminal agents

abbrev pub prefer : Option AgentInfo → Option AgentInfo → Option AgentInfo
prefer none later = later
prefer (some a) later = some a

-- SessionCache.resolve
unfoldable pub resolve : String → SessionCache → Option AgentInfo
resolve target s =
    prefer (get target s.agents) (agent_of s.agents (filled (get target s.pane_to_terminal)))

-- SessionCache._request_rebuild: the last request before a timer fires is the one that counts.
unfoldable pub request_rebuild : Timer → SessionCache → SessionCache
request_rebuild delay s = if s.stopped then s else record s { rebuild_timer = some delay }
