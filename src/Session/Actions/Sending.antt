-- ===== src/Session/Actions/Sending.antt =====
-- send_to_agent and get_agent_status of actions.py.
use herdr_bridge.Prelude.{
  ℕ, Bool, ◌||◌, Option, List, [], ◌∷◌, String, ◌==◌, text_key, if◌then◌else◌, Result, ok, raise,
}
use herdr_bridge.Session.Controls.{Entry}
use herdr_bridge.Session.Cache.{AgentStatus, AgentInfo, SessionCache}
use herdr_bridge.Session.Cache.Snapshot.{Snapshot}
use herdr_bridge.Session.Client.{
  ClientError, connection_error, agent_not_found, api_error, timeout_error, value_error,
}
use herdr_bridge.Session.Actions.{
  uses_post19_agent_wire, agent_target, Answer, resolve_or_raise, Wire, Outcome, refused,
}

-- What send_to_agent raises: AgentPromptRefusedError, or the error of the client.
pub data SendError : Type 0 where
  prompt_refused : String → String → SendError
  passed_on : ClientError → SendError

abbrev pub is_refusal : String → Bool
is_refusal code = code == "agent_blocked" || code == "agent_prompt_stalled"

abbrev pub send_error : ClientError → SendError
send_error (agent_not_found code message) =
    if is_refusal code
    then prompt_refused code message
    else passed_on (agent_not_found code message)
send_error (api_error code message) =
    if is_refusal code then prompt_refused code message else passed_on (api_error code message)
send_error connection_error = passed_on connection_error
send_error timeout_error = passed_on timeout_error
send_error value_error = passed_on value_error

pub record Sent : Type 0 where
  pub result : Result SendError String
  pub cache : SessionCache
  pub wire : List Wire
  pub audited : List Entry

abbrev pub send_method : Option ℕ → String
send_method protocol = if uses_post19_agent_wire protocol then "agent.prompt" else "agent.send"

abbrev pub send_reply :
    String → AgentInfo → SessionCache → List Wire → Result ClientError (Unit {0}) → Sent
send_reply actor info s w (raise e) = record {
  result = raise (send_error e);
  cache = s;
  wire = w;
  audited = [];
}
send_reply actor info s w (ok u) = record {
  result = ok info.agent_id;
  cache = s;
  wire = w;
  audited = (actor, "send_to_agent", info.agent_id) ∷ [];
}

abbrev pub send_found : Option ℕ → String → Result ClientError (Unit {0}) → Answer AgentInfo → Sent
send_found protocol actor reply (raise e, s) = record {
  result = raise (passed_on e);
  cache = s;
  wire = [];
  audited = [];
}
send_found protocol actor reply (ok info, s) =
    send_reply actor info s ((send_method protocol, agent_target protocol info) ∷ []) reply

-- BridgeActions.send_to_agent: the agent that was reached, or an error.
unfoldable pub send_to_agent :
    Option ℕ
    → String
    → String
    → Option Snapshot
    → Result ClientError (Unit {0})
    → SessionCache
    → Sent
send_to_agent protocol actor target snap reply s =
    send_found protocol actor reply (resolve_or_raise target snap s)

abbrev pub status_found : String → Answer AgentInfo → Outcome AgentStatus
status_found actor (raise e, s) = refused e s []
status_found actor (ok info, s) = record {
  answer = ok info.status;
  cache = s;
  wire = [];
  audited = (actor, "get_agent_status", info.agent_id) ∷ [];
}

-- BridgeActions.get_agent_status
unfoldable pub get_agent_status :
    String → String → Option Snapshot → SessionCache → Outcome AgentStatus
get_agent_status actor target snap s = status_found actor (resolve_or_raise target snap s)
