-- ===== src/Acp/Prompts/Retries.antt =====
-- What acp/transport.py's wait_done answers for a prompt that was cancelled.
use herdr_bridge.Prelude.{◌≡◌, Option, none, some, ◌⊎◌}
use herdr_bridge.Acp.Prompts.{Reason, canceled, timeout, PromptResult, Answer}

-- The reason of a result, if there is one.
abbrev pub reason_of : Option PromptResult → Option Reason
reason_of none = none
reason_of (some r) = some r.reason

-- Cancelled, or the run was too late, or the reader raised.
abbrev pub IsGivenUp : Answer → Type 0
IsGivenUp a =
    (a.0 ≡ 1)
    × ((reason_of a.1 ≡ some canceled) ⊎ ((reason_of a.1 ≡ some timeout) ⊎ (reason_of a.1 ≡ none)))
