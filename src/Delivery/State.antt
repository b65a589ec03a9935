-- ===== src/Delivery/State.antt =====
-- The delivery states and their transition table (orchestration/memory.py).
use herdr_bridge.Prelude.{
  ◌≡◌, ◌↔◌, Bool, true, false, ◌||◌, Option, none, some, List, [], ◌∷◌, String, ◌==◌, text_key,
  Result, ok, raise, arith, if◌then◌else◌,
}

-- `other` is a text that is neither in DELIVERY_STATES nor "COMPLETED" nor "DEGRADED".
pub data State : Type 0 where
  init dispatch_pending dispatch_failed await_pong : State
  pong_received side_report_received timeout failed : State
  completed degraded : State
  other : String → State

abbrev pub same : State → State → Bool
same init init = true
same dispatch_pending dispatch_pending = true
same dispatch_failed dispatch_failed = true
same await_pong await_pong = true
same pong_received pong_received = true
same side_report_received side_report_received = true
same timeout timeout = true
same failed failed = true
same completed completed = true
same degraded degraded = true
same (other a) (other b) = a == b
same _ _ = false

pub same_iff : (a b : State) → (same a b ≡ true) ↔ (a ≡ b)
same_iff (other a) (other b) = ground (arith, text_key.eqb_iff a b)
same_iff _ _ = ground arith

abbrev pub member : State → List State → Bool
member s [] = false
member s (x ∷ xs) = same s x || member s xs

abbrev pub is_known : State → Bool
is_known (other _) = false
is_known _ = true

-- STATE_TRANSITIONS.get(current, [])
abbrev pub transitions : State → List State
transitions init = dispatch_pending ∷ dispatch_failed ∷ []
transitions dispatch_pending = await_pong ∷ dispatch_failed ∷ timeout ∷ []
transitions dispatch_failed = failed ∷ init ∷ []
transitions await_pong = pong_received ∷ side_report_received ∷ timeout ∷ failed ∷ []
transitions pong_received = completed ∷ []
transitions side_report_received = completed ∷ degraded ∷ []
transitions timeout = failed ∷ init ∷ []
transitions failed = init ∷ []
transitions _ = []

pub data Error : Type 0 where
  value_error delivery_state_write_failed memory_error : Error

-- A first state, or a step of the table.
abbrev pub is_allowed : Option State → State → Bool
is_allowed none new = same new init
is_allowed (some s) new = member new (transitions s)

-- _validate_transition
unfoldable pub validate : Option State → State → Result Error (Unit {0})
validate current new =
    if is_known new
    then if is_allowed current new then ok tt else raise value_error
    else raise value_error
