-- ===== src/Session/Actions/Wait/Verdicts.antt =====
-- What the answer of actions.py's wait_until says of the predicate and of the agent.
use herdr_bridge.Prelude.{◌≡◌, Bool, true, false, Option, none, some, String, text_key}
use herdr_bridge.Session.Cache.{AgentStatus}
use herdr_bridge.Session.Actions.{AgentOutput}
use herdr_bridge.Session.Actions.Wait.{
  Sample, read_output, Reason, predicate, timeout, agent_gone, error, blocked, stalled, WaitResult,
  is_blocked, is_stalled,
}

module _ (holds : Sample → Option Bool) (strip lower : String → String) where
  -- An answer about an output that was read without the predicate holding.
  abbrev pub Unmet : Option Sample → (AgentStatus → Type 0) → Type 0
  Unmet last P =
      (out : AgentOutput) × (last ≡ some (read_output out))
      × (holds (read_output out) ≡ some false)
      × P out.status_at_read

  -- The reason of an answer is the case.
  abbrev pub Justified : Bool → Reason → Option Sample → Type 0
  Justified success predicate last =
      (success ≡ true) × ((sample : Sample) × (last ≡ some sample) × (holds sample ≡ some true))
  Justified success blocked last =
      (success ≡ false) × Unmet last (λ status. is_blocked status ≡ true)
  Justified success stalled last =
      (success ≡ false) × Unmet last (λ status. is_stalled status ≡ true)
  Justified success timeout last =
      (success ≡ false)
      × Unmet last (λ status. (is_blocked status ≡ false) × (is_stalled status ≡ false))
  Justified success agent_gone last = success ≡ false
  Justified success error last = success ≡ false

  abbrev pub IsJustified : WaitResult → Type 0
  IsJustified r = Justified r.success r.reason r.last_output

  abbrev IfSettled : Option WaitResult → Type 0
  IfSettled none = Unit
  IfSettled (some r) = IsJustified r
