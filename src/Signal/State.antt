-- ===== src/Signal/State.antt =====
-- The states of the Signal ACK chain and the transition table (orchestration/memory.py).
use herdr_bridge.Prelude.{
  ◌≡◌, ◌↔◌, Bool, true, false, Option, none, some, List, [], ◌∷◌, ◌||◌, String, ◌==◌, Result, ok,
  raise, arith, if◌then◌else◌, text_key,
}

-- `other` is a text that is no member of SIGNAL_STATES.
pub data State : Type 0 where
  accepted injected seen accepted_for_work completed : State
  daemon_unreachable injection_unconfirmed needs_attention : State
  other : String → State

abbrev pub same : State → State → Bool
same accepted accepted = true
same injected injected = true
same seen seen = true
same accepted_for_work accepted_for_work = true
same completed completed = true
same daemon_unreachable daemon_unreachable = true
same injection_unconfirmed injection_unconfirmed = true
same needs_attention needs_attention = true
same (other a) (other b) = a == b
same _ _ = false

pub same_iff : (a b : State) → (same a b ≡ true) ↔ (a ≡ b)
same_iff (other a) (other b) = ground (arith, text_key.eqb_iff a b)
same_iff _ _ = ground arith

abbrev pub member : State → List State → Bool
member s [] = false
member s (x ∷ xs) = same s x || member s xs

abbrev pub is_known : State → Bool
is_known (other _) = false
is_known _ = true

-- SIGNAL_STATE_TRANSITIONS.get(current, [])
abbrev pub transitions : Option State → List State
transitions none = accepted ∷ daemon_unreachable ∷ injected ∷ []
transitions (some accepted) = injected ∷ injection_unconfirmed ∷ []
transitions (some injected) = seen ∷ needs_attention ∷ completed ∷ []
transitions (some seen) = accepted_for_work ∷ []
transitions (some accepted_for_work) = completed ∷ []
transitions (some injection_unconfirmed) = injected ∷ []
transitions (some needs_attention) = seen ∷ []
transitions (some _) = []

pub data Error : Type 0 where
  value_error signal_state_write_failed : Error

abbrev pub is_current : Option State → State → Bool
is_current none new = false
is_current (some s) new = same new s

-- _validate_signal_transition
unfoldable pub validate : Option State → State → Result Error (Unit {0})
validate current new =
    if is_known new
    then if is_current current new
      then ok tt
      else if member new (transitions current)
      then ok tt
      else raise value_error
    else raise value_error
