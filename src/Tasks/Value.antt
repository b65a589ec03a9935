-- ===== src/Tasks/Value.antt =====
-- The JSON values of tasks and events, the board, and what the operations raise.
use herdr_bridge.Prelude.{
  Bool, false, not, ◌==◌, text_key, Option, none, some, List, String, Result, ok, raise,
}
use herdr_bridge.Tasks.Dict.{Dict}

-- A number, and a list or object, comes as its text with its truth value.
pub data Value : Type 0 where
  null : Value
  text : String → Value
  flag : Bool → Value
  number : String → Bool → Value
  container : String → Bool → Value

-- bool(value)
abbrev pub truth : Value → Bool
truth null = false
truth (text s) = not (s == "")
truth (flag b) = b
truth (number _ b) = b
truth (container _ b) = b

-- bool(d.get(k))
abbrev pub is_given : Option Value → Bool
is_given none = false
is_given (some v) = truth v

abbrev pub Task : Type 0
Task = Dict Value

-- The member "tasks" of a board, which may be missing, and the other members, which stay.
pub record Board : Type 0 where
  pub tasks : Option (Dict Task)
  pub others : Dict Value

abbrev pub empty_board : Board
empty_board = record { tasks = some List.[]; others = List.[] }

pub data Error : Type 0 where
  invalid_transition key_error type_error attribute_error : Error
  file_not_found json_decode_error event_log_write_error other_error : Error

-- d[k]
abbrev pub required : Option Value → Result Error Value
required none = raise key_error
required (some v) = ok v

-- The snapshot file: there is none, it is no JSON, or it holds a board.
pub data Snapshot : Type 0 where
  missing corrupt : Snapshot
  holds : Board → Snapshot
