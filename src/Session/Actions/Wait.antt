-- ===== src/Session/Actions/Wait.antt =====
-- `BridgeActions.wait_until` of actions.py. The predicate of the caller, which may raise, and the
-- functions `str.strip` and `str.lower` are parameters; what herdr sends and answers is given.
pub mod Verdicts
use herdr_bridge.Prelude.{
  ℕ, Bool, true, false, not, ◌&&◌, ◌||◌, Option, none, some, List, [], ◌∷◌, String, ◌==◌, text_key,
  if◌then◌else◌, Result, ok, raise,
}
use herdr_bridge.Session.Cache.{AgentStatus, AgentInfo}
use herdr_bridge.Session.Client.{ClientError, agent_not_found}
use herdr_bridge.Session.Actions.{AgentOutput}

-- What a predicate looks at: an output that was read, or a line of an event with its normal form and status.
pub data Sample : Type 0 where
  read_output : AgentOutput → Sample
  matched_line : String → String → AgentStatus → Sample

pub data Reason : Type 0 where
  predicate : Reason
  timeout : Reason
  agent_gone : Reason
  error : Reason
  blocked : Reason
  stalled : Reason

pub record WaitResult : Type 0 where
  pub success : Bool
  pub reason : Reason
  pub last_output : Option Sample

-- An event for the callback: its name, pane, matched line and status, and what read_agent then answers.
pub record Push : Type 0 where
  pub name : String
  pub pane : Option String
  pub line : String
  pub status : AgentStatus
  pub reading : Result ClientError AgentOutput

-- `last_matched_line` and `res`
pub record Waiting : Type 0 where
  pub last_matched : String
  pub res : Option WaitResult

abbrev pub settle : Bool → Reason → Sample → Waiting → Waiting
settle success reason sample w = record w {
  res = some (record { success = success; reason = reason; last_output = some sample });
}

abbrev pub is_blocked : AgentStatus → Bool
is_blocked AgentStatus.blocked = true
is_blocked other = false

abbrev pub is_stalled : AgentStatus → Bool
is_stalled AgentStatus.agent_prompt_stalled = true
is_stalled other = false

abbrev pub is_in : Option String → String → Bool
is_in none pane = false
is_in (some p) pane = p == pane

-- if predicate(out) ... if blocked ... if stalled
abbrev pub judge_output : AgentOutput → Option Bool → Waiting → Waiting
judge_output out none w = w
judge_output out (some true) w = settle true predicate (read_output out) w
judge_output out (some false) w =
    if is_blocked out.status_at_read
    then settle false blocked (read_output out) w
    else if is_stalled out.status_at_read
    then settle false stalled (read_output out) w
    else w

abbrev pub ended : Reason → Option Sample → WaitResult
ended reason last = record { success = false; reason = reason; last_output = last }

abbrev pub final_verdict : AgentOutput → Option Bool → WaitResult
final_verdict out none = ended error (some (read_output out))
final_verdict out (some true) = record {
  success = true;
  reason = predicate;
  last_output = some (read_output out);
}
final_verdict out (some false) =
    if is_blocked out.status_at_read
    then ended blocked (some (read_output out))
    else if is_stalled out.status_at_read
    then ended stalled (some (read_output out))
    else ended timeout (some (read_output out))

abbrev pub failure : ClientError → WaitResult
failure (agent_not_found code message) = ended agent_gone none
failure e = ended error none

module _ (holds : Sample → Option Bool) (strip lower : String → String) where
  abbrev pub look : Result ClientError AgentOutput → Waiting → Waiting
  look (raise e) w = w
  look (ok out) w = judge_output out (holds (read_output out)) w

  -- A matched line that the predicate takes, or that makes it raise, ends the callback.
  abbrev pub judge_line : Push → Sample → Option Bool → Waiting → Waiting
  judge_line p sample none w = w
  judge_line p sample (some true) w = settle true predicate sample w
  judge_line p sample (some false) w = look p.reading w

  -- norm and norm != last_matched_line.lower() if last_matched_line else norm
  abbrev pub is_fresh : String → String → Bool
  is_fresh norm last =
      if last == "" then not (norm == "") else not (norm == "") && not (norm == lower last)

  -- fake_out
  abbrev pub line_sample : Push → Sample
  line_sample p = matched_line p.line (lower (strip p.line)) p.status

  abbrev pub match_line : Push → Waiting → Waiting
  match_line p w =
      if is_fresh (lower (strip p.line)) w.last_matched
      then judge_line p (line_sample p) (holds (line_sample p)) (record w { last_matched = p.line })
      else look p.reading w

  -- _wait_on_event
  unfoldable pub wait_on_event : AgentInfo → Push → Waiting → Waiting
  wait_on_event info p w =
      if is_in p.pane info.pane_id
      then if p.name == "pane.output_matched" then match_line p w else look p.reading w
      else w

  -- The callbacks that run before the subscription is closed.
  unfoldable pub wait_on_events : AgentInfo → List Push → Waiting → Waiting
  wait_on_events info [] w = w
  wait_on_events info (p ∷ l) w = wait_on_events info l (wait_on_event info p w)

  -- The confirming read after the wait.
  abbrev pub final_read : Result ClientError AgentOutput → WaitResult
  final_read (raise e) = failure e
  final_read (ok out) = final_verdict out (holds (read_output out))

  abbrev pub conclude : Option WaitResult → Result ClientError AgentOutput → WaitResult
  conclude (some r) reading = r
  conclude none reading = final_read reading

  -- wait_until, from the agent that was found, the events of the subscription, if it could be made, and the
  -- answer to the last read.
  unfoldable pub wait_until :
      Result ClientError AgentInfo → List Push → Result ClientError AgentOutput → WaitResult
  wait_until (raise e) l reading = failure e
  wait_until (ok info) l reading =
      conclude (wait_on_events info l (record { last_matched = ""; res = none })).res reading
