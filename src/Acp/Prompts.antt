-- ===== src/Acp/Prompts.antt =====
-- The prompts of acp/transport.py, `AcpxTransport`: one run of acpx, and one more if it asks for a
-- reconnection. What acpx puts out is given.
pub mod Retries
use herdr_bridge.Prelude.{
  ℕ, Bool, true, false, not, ◌&&◌, ◌||◌, Option, none, some, List, [], ◌∷◌, ◌++◌, String, ◌==◌,
  text_key, if◌then◌else◌,
}
use herdr_bridge.Acp.Events.{
  Json, string, Members, field, Line, AcpEvent, is_text, extract_final_result, parse_stream,
}

pub data Reason : Type 0 where
  stop : Reason
  canceled : Reason
  timeout : Reason
  error : Reason

-- The error text matters for one question only: whether it says "needs reconnect".
pub record PromptResult : Type 0 where
  pub reason : Reason
  pub stop_reason : Option Json
  pub events : List AcpEvent
  pub usage : Option Json
  pub needs_reconnect : Bool

-- A run of acpx: it does not return in time, or it returns lines, and its error output asks for a reconnection or not.
pub data Run : Type 0 where
  too_late : Run
  returned : List Line → Bool → Run

abbrev pub without_final : Bool → List AcpEvent → Bool → PromptResult
without_final true l asks = record {
  reason = canceled;
  stop_reason = none;
  events = l;
  usage = none;
  needs_reconnect = false;
}
without_final false l asks = record {
  reason = error;
  stop_reason = none;
  events = l;
  usage = none;
  needs_reconnect = asks;
}

abbrev pub with_final : Bool → List AcpEvent → Members → PromptResult
with_final cancelled l d = record {
  reason = if is_text (field "stopReason" d) "cancelled" || cancelled then canceled else stop;
  stop_reason = field "stopReason" d;
  events = l;
  usage = field "usage" d;
  needs_reconnect = false;
}

abbrev pub judged : Bool → List AcpEvent → Bool → Option Members → PromptResult
judged cancelled l asks none = without_final cancelled l asks
judged cancelled l asks (some d) = with_final cancelled l d

abbrev pub parsed : Bool → Bool → Option (List AcpEvent) → Option PromptResult
parsed cancelled asks none = none
parsed cancelled asks (some l) = some (judged cancelled l asks (extract_final_result l))

-- _run_prompt_once, where nobody cancels, and _wait_done_once; none if the reader raises.
unfoldable pub run_once : Bool → Run → Option PromptResult
run_once cancelled too_late = some (record {
  reason = timeout;
  stop_reason = none;
  events = [];
  usage = none;
  needs_reconnect = false;
})
run_once cancelled (returned lines asks) = parsed cancelled asks (parse_stream lines)

-- How often acpx is started, and the result.
abbrev pub Answer : Type 0
Answer = ℕ × Option PromptResult

abbrev pub is_error : Reason → Bool
is_error error = true
is_error other = false

-- _is_needs_reconnect
abbrev pub asks_reconnect : PromptResult → Bool
asks_reconnect r = is_error r.reason && r.needs_reconnect

-- The second run, if the first asks for it; the flag is that of the second run.
abbrev pub retried : Bool → Run → Option PromptResult → Answer
retried cancelled again none = (1, none)
retried cancelled again (some r) =
    if asks_reconnect r then (2, run_once cancelled again) else (1, some r)

-- run_prompt
unfoldable pub run_prompt : Run → Run → Answer
run_prompt first again = retried false again (run_once false first)

-- When `cancel` is called with the handle of the caller, if at all. The second run has a handle of its own,
-- which only the function itself holds, so that its flag is never set.
pub data Cancel : Type 0 where
  never : Cancel
  before_judged : Cancel
  during_retry : Cancel

abbrev pub first_flag : Cancel → Bool
first_flag before_judged = true
first_flag _ = false

-- wait_done
unfoldable pub wait_done : Cancel → Run → Run → Answer
wait_done cancel first again = retried false again (run_once (first_flag cancel) first)
