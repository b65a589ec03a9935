-- ===== src/Gates/Tests.antt =====
-- Gates on a small file.
use herdr_bridge.Prelude.{◌≡◌, refl, false, none, some, [], ◌∷◌, All}
use herdr_bridge.Tasks.Dict.{get}
use herdr_bridge.Tasks.Value.{text}
use herdr_bridge.Gates.{Gate, Executor, Context, check_gates}
use herdr_bridge.Gates.Checks.{is_violated, passed_gates_hold}

abbrev receipt_gate : Gate
receipt_gate =
    ("trigger", text "done")
    ∷ ("check", text "dispatch_receipt_present")
    ∷ ("id", text "G1")
    ∷ ("error_msg", text "no receipt")
    ∷ []

abbrev context : Context
context = record {
  pane = none;
  agent = none;
  dispatch_receipt = some (text "R1");
  blocked_reason = none;
}

abbrev executor : Executor
executor = record { cache = none; cache_mtime = 0; cache_loaded_at = 0; parse_call_count = 0 }

passed_gates_hold_example :
    All (λ gate. is_violated "done" context gate ≡ false) (receipt_gate ∷ [])
unfolding check_gates get
passed_gates_hold_example = passed_gates_hold "done" context (receipt_gate ∷ []) refl
