-- ===== src/Session/Actions.antt =====
-- The tool functions of actions.py over the cache, the client and the control leases. What herdr answers is
-- given; a function returns its answer with the cache and the audit entries that it leaves.
pub mod Sending
pub mod Leases
pub mod Wait
mod Tests
use herdr_bridge.Prelude.{
  ℕ, Bool, true, false, not, ◌&&◌, ◌||◌, Option, none, some, List, [], ◌∷◌, String, ◌==◌, text_key,
  leb, if◌then◌else◌, Result, ok, raise,
}
use herdr_bridge.Tasks.Dict.{Dict, get}
use herdr_bridge.Session.Controls.{Registry, Entry, Acquired, acquire}
use herdr_bridge.Session.Cache.{
  Value, Fields, text_at, text_or, AgentStatus, AgentInfo, SessionCache, resolve,
}
use herdr_bridge.Session.Cache.Snapshot.{Snapshot, refresh_snapshot}
use herdr_bridge.Session.Client.{
  ClientError, connection_error, agent_not_found, api_error, timeout_error, value_error,
}

-- uses_post19_agent_wire of schema.py, for a protocol that is a number, or unknown
abbrev pub uses_post19_agent_wire : Option ℕ → Bool
uses_post19_agent_wire none = false
uses_post19_agent_wire (some protocol) = leb 19 protocol

pub data Compat : Type 0 where
  tested : Compat
  untested : Compat

-- check_server_compat of schema.py: none for SchemaVersionError
unfoldable pub check_server_compat : Option ℕ → Option Compat
check_server_compat none = none
check_server_compat (some protocol) =
    if leb 16 protocol then if leb protocol 20 then some tested else some untested else none

-- BridgeActions._agent_target
unfoldable pub agent_target : Option ℕ → AgentInfo → String
agent_target protocol info = if uses_post19_agent_wire protocol then info.pane_id else info.agent_id

-- _MODE_MAP: source, format, strip_ansi
unfoldable pub mode_map : String → Option (String × String × Bool)
mode_map mode =
    if mode == "recent-unwrapped" || mode == "recent_unwrapped"
    then some ("recent_unwrapped", "text", true)
    else if mode == "raw-ansi"
    then some ("recent", "ansi", false)
    else if mode == "visible"
    then some ("visible", "text", true)
    else if mode == "recent"
    then some ("recent", "text", true)
    else if mode == "detection"
    then some ("detection", "text", true)
    else none

-- A call that may raise, with the cache that it leaves.
abbrev pub Answer : Type 0 → Type 0
Answer A = Result ClientError A × SessionCache

abbrev pub resolve_again : String → Bool × SessionCache → Answer (Option AgentInfo)
resolve_again target (false, s) = (raise connection_error, s)
resolve_again target (true, s) = (ok (resolve target s), s)

abbrev pub resolve_from :
    String → Bool → Option Snapshot → SessionCache → Option AgentInfo → Answer (Option AgentInfo)
resolve_from target exists snap s (some info) = (ok (some info), s)
resolve_from target exists snap s none =
    if exists then (ok none, s) else resolve_again target (refresh_snapshot snap s)

-- BridgeActions._resolve_with_refresh: `exists` tells whether the target is known otherwise.
unfoldable pub resolve_with_refresh :
    String → Bool → Option Snapshot → SessionCache → Answer (Option AgentInfo)
resolve_with_refresh target exists snap s = resolve_from target exists snap s (resolve target s)

abbrev pub found_or_raise : Answer (Option AgentInfo) → Answer AgentInfo
found_or_raise (raise e, s) = (raise e, s)
found_or_raise (ok none, s) = (raise (agent_not_found "agent_not_found" ""), s)
found_or_raise (ok (some info), s) = (ok info, s)

-- BridgeActions._resolve_or_raise
unfoldable pub resolve_or_raise : String → Option Snapshot → SessionCache → Answer AgentInfo
resolve_or_raise target snap s = found_or_raise (resolve_with_refresh target false snap s)

pub record AgentOutput : Type 0 where
  pub agent_id : String
  pub output : String
  pub source : String
  pub status_at_read : AgentStatus
  pub revision : Option ℕ

-- The reply to "agent.read": its text, if it has one, and its revision, if that is an int.
abbrev pub ReadReply : Type 0
ReadReply = Result ClientError (Option String × Option ℕ)

-- The request that is put on the wire: method and target.
abbrev pub Wire : Type 0
Wire = String × String

pub record Outcome (A : Type 0) : Type 0 where
  pub answer : Result ClientError A
  pub cache : SessionCache
  pub wire : List Wire
  pub audited : List Entry

abbrev pub refused : {A : Type 0} → ClientError → SessionCache → List Wire → Outcome A
refused e s w = record { answer = raise e; cache = s; wire = w; audited = [] }

abbrev pub output_of : AgentInfo → String → Option String × Option ℕ → AgentOutput
output_of info source r = record {
  agent_id = info.agent_id;
  output = text_or "" r.0;
  source = source;
  status_at_read = info.status;
  revision = r.1;
}

abbrev pub read_reply :
    String → String → AgentInfo → SessionCache → List Wire → ReadReply → Outcome AgentOutput
read_reply actor source info s w (raise e) = refused e s w
read_reply actor source info s w (ok r) = record {
  answer = ok (output_of info source r);
  cache = s;
  wire = w;
  audited = (actor, "read_agent", info.agent_id) ∷ [];
}

abbrev pub read_found :
    Option ℕ → String → String → ReadReply → Answer AgentInfo → Outcome AgentOutput
read_found protocol actor source reply (raise e, s) = refused e s []
read_found protocol actor source reply (ok info, s) =
    read_reply actor source info s (("agent.read", agent_target protocol info) ∷ []) reply

abbrev pub read_mode :
    Option ℕ
    → String
    → String
    → Option Snapshot
    → ReadReply
    → SessionCache
    → Option (String × String × Bool)
    → Outcome AgentOutput
read_mode protocol actor target snap reply s none = refused value_error s []
read_mode protocol actor target snap reply s (some m) =
    read_found protocol actor m.0 reply (resolve_or_raise target snap s)

-- BridgeActions.read_agent
unfoldable pub read_agent :
    Option ℕ
    → String
    → String
    → String
    → Option Snapshot
    → ReadReply
    → SessionCache
    → Outcome AgentOutput
read_agent protocol actor target mode snap reply s =
    read_mode protocol actor target snap reply s (mode_map mode)

-- BridgeActions.acquire_control
pub data Control : Type 0 where
  -- ValueError
  bad_mode : Control
  -- AgentNotFoundError
  pane_not_found : Control
  -- The snapshot raises.
  unresolved : ClientError → Control
  leased : Acquired → Control

abbrev pub is_pane : String → SessionCache → Bool
is_pane pane s = elim (get pane s.panes) [ none ↦ false | some p ↦ true ]

abbrev pub lease :
    String → String → String → Registry → SessionCache → Control × SessionCache × Registry
lease actor pane mode r s = let a = acquire pane actor mode r in (leased a.0, s, a.1)

abbrev pub lease_resolved :
    String
    → String
    → String
    → Registry
    → Answer (Option AgentInfo)
    → Control × SessionCache × Registry
lease_resolved actor target mode r (raise e, s) = (unresolved e, s, r)
lease_resolved actor target mode r (ok (some info), s) = lease actor info.pane_id mode r s
lease_resolved actor target mode r (ok none, s) =
    if is_pane target s then lease actor target mode r s else (pane_not_found, s, r)

unfoldable pub acquire_control :
    String
    → String
    → String
    → Option Snapshot
    → SessionCache
    → Registry
    → Control × SessionCache × Registry
acquire_control actor target mode snap s r =
    if mode == "observe" || mode == "control"
    then lease_resolved actor target mode r (resolve_with_refresh target (is_pane target s) snap s)
    else (bad_mode, s, r)
