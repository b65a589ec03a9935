-- ===== src/Session/Actions/Tests.antt =====
-- Runs of the tool functions, and the theorems about them at concrete inputs.
use herdr_bridge.Prelude.{
  ◌≡◌, refl, Bool, false, Option, none, some, [], ◌∷◌, String, ◌==◌, text_key, Result, ok, raise,
  arith,
}
use herdr_bridge.Tasks.Dict.{get, put}
use herdr_bridge.Session.Controls.{empty_registry}
use herdr_bridge.Session.Cache.{
  idle, blocked, AgentInfo, SessionCache, new_cache, text, agent_info, request_rebuild,
}
use herdr_bridge.Session.Cache.Events.Index.{IsIndexed, new-IsIndexed}
use herdr_bridge.Session.Cache.Events.{EventData, apply_event, pane_created}
use herdr_bridge.Session.Cache.Events.Mirror.{change_of}
use herdr_bridge.Session.Cache.Events.Refines.{apply_event-refines}
use herdr_bridge.Session.Client.{ClientError, connection_error}
use herdr_bridge.Session.Actions.{AgentOutput, acquire_control}
use herdr_bridge.Session.Actions.Leases.{acquire_control-same}
use herdr_bridge.Session.Actions.Wait.{
  Sample, read_output, matched_line, Push, wait_on_event, wait_on_events, wait_until,
}

abbrev created_one : EventData
created_one = record {
  fields = [];
  pane =
      ("pane_id", text "p1")
      ∷ ("terminal_id", text "t1")
      ∷ ("agent", text "claude")
      ∷ ("agent_status", text "idle")
      ∷ [];
}

abbrev agent_one : AgentInfo
agent_one = agent_info "t1" "p1" created_one.pane

abbrev indexed_cache : SessionCache
indexed_cache = apply_event 5 "pane_created" created_one new_cache

indexed_cache-IsIndexed : IsIndexed indexed_cache
unfolding change_of get
indexed_cache-IsIndexed =
    (apply_event-refines 5 "pane_created" created_one new_cache new-IsIndexed
      (record { alone = λ b h. ground (arith, h); only = λ p b h k. ground (arith, h) })).0

acquire_control-same_example :
    acquire_control "a" "t1" "control" none indexed_cache empty_registry
    ≡ acquire_control "a" agent_one.pane_id "control" none indexed_cache empty_registry
unfolding apply_event pane_created get put agent_info request_rebuild
acquire_control-same_example =
    acquire_control-same "a" "control" none indexed_cache empty_registry "t1" agent_one
      indexed_cache-IsIndexed refl refl refl

abbrev passed : AgentOutput
passed = record {
  agent_id = "t1";
  output = "PASSED";
  source = "recent_unwrapped";
  status_at_read = idle;
  revision = none;
}

abbrev stuck : AgentOutput
stuck = record passed { output = "working"; status_at_read = blocked }

abbrev has_passed : Sample → Option Bool
has_passed (read_output out) = some (out.output == "PASSED")
has_passed (matched_line line norm status) = some (line == "PASSED")

abbrev push_of : String → Result ClientError AgentOutput → Push
push_of name reading = record {
  name = name;
  pane = some "p1";
  line = "PASSED";
  status = idle;
  reading = reading;
}

-- An event under the name that herdr pushes does not lead to a test of its matched line.
pushed_name_is_not_matched :
    (wait_on_event has_passed
      (λ t. t)
      (λ t. t)
      agent_one
      (push_of "pane_output_matched" (raise connection_error))
      (record { last_matched = ""; res = none })).res
    ≡ none
unfolding wait_on_event agent_info
pushed_name_is_not_matched = refl

-- A success that was found is replaced by what a later event finds before the subscription is closed.
later_event_replaces :
    (wait_until has_passed
      (λ t. t)
      (λ t. t)
      (ok agent_one)
      (push_of "pane_agent_status_changed" (ok passed)
        ∷ push_of "pane_agent_status_changed" (ok stuck)
        ∷ [])
      (ok passed)).success
    ≡ false
unfolding wait_until wait_on_events wait_on_event agent_info
later_event_replaces = refl
