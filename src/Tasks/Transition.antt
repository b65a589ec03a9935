-- ===== src/Tasks/Transition.antt =====
-- `apply_transition` of orchestration/task_board.py.
use herdr_bridge.Prelude.{
  Bool, false, not, ◌&&◌, ◌||◌, Option, none, some, List, [], ◌∷◌, String, ◌==◌, text_key, Result,
  ok, raise, if◌then◌else◌,
}
use herdr_bridge.Tasks.Dict.{Dict, get, put, join}
use herdr_bridge.Tasks.Value.{
  Value, text, container, is_given, Task, Error, invalid_transition, key_error, type_error,
}

-- _ALLOWED_TRANSITIONS
abbrev pub allowed_table : Dict (List String)
allowed_table =
    ("pending", "claimed" ∷ "in_progress" ∷ "cancelled" ∷ [])
    ∷ ("claimed", "in_progress" ∷ "cancelled" ∷ [])
    ∷ ("in_progress", "blocked" ∷ "done" ∷ "failed" ∷ "cancelled" ∷ [])
    ∷ ("blocked", "in_progress" ∷ "cancelled" ∷ [])
    ∷ ("done", [])
    ∷ ("failed", "cancelled" ∷ [])
    ∷ ("cancelled", [])
    ∷ []

abbrev pub or_none_of : Option (List String) → List String
or_none_of none = []
or_none_of (some xs) = xs

-- _ALLOWED_TRANSITIONS.get(current, set())
unfoldable pub allowed_transitions : String → List String
unfolding get
allowed_transitions current = or_none_of (get current allowed_table)

abbrev pub contains : String → List String → Bool
contains s [] = false
contains s (x ∷ xs) = s == x || contains s xs

-- new_status not in _ALLOWED_TRANSITIONS.get(current, set()), where a list or object is no key
abbrev pub check_allowed : Value → String → Result Error (Unit {0})
check_allowed (text s) new =
    if contains new (allowed_transitions s) then ok tt else raise invalid_transition
check_allowed (container _ _) new = raise type_error
check_allowed _ new = raise invalid_transition

-- Any state may be cancelled.
abbrev pub check_transition : Value → String → Result Error (Unit {0})
check_transition current new = if new == "cancelled" then ok tt else check_allowed current new

-- The fields that two of the states ask for.
abbrev pub lacks_field : String → Dict Value → Bool
lacks_field new fields =
    new == "blocked" && not (is_given (get "blocked_reason" fields))
    || new == "done" && not (is_given (get "dispatch_receipt" fields))

abbrev pub check_fields : String → Dict Value → Result Error (Unit {0})
check_fields new fields = if lacks_field new fields then raise invalid_transition else ok tt

-- {**task, "status": new_status, **fields}
abbrev pub moved : Task → String → Dict Value → Task
moved task new fields = join (put "status" (text new) task) fields

abbrev pub and_then : Result Error (Unit {0}) → Result Error Task → Result Error Task
and_then (ok _) next = next
and_then (raise e) next = raise e

unfoldable pub apply_transition : Task → String → Dict Value → Result Error Task
apply_transition task new fields = elim (get "status" task) [
  | none ↦ raise key_error
  | some current ↦
      and_then (check_transition current new)
        (and_then (check_fields new fields) (ok (moved task new fields)))
]
