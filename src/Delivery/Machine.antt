-- ===== src/Delivery/Machine.antt =====
-- `update_delivery_state` and `get_delivery_state` of orchestration/memory.py.
pub mod Updates
pub mod Runs
use herdr_bridge.Prelude.{
  ℕ, ◌-◌, ◌≡◌, Bool, true, false, ◌&&◌, Option, none, some, List, [], ◌∷◌, String, Result, ok,
  raise, if◌then◌else◌,
}
use herdr_bridge.Delivery.State.{
  State, completed, degraded, dispatch_failed, pong_received, side_report_received, same, member,
  validate, Error, delivery_state_write_failed, memory_error,
}
use herdr_bridge.Delivery.Store.{Row, Rows, TaskKey, default_ttl, write_state, read_state}

-- What `store_memory` does with the terminal summary: RemaGraph stores it, answers with another
-- status, or the call raises.
pub data Memory : Type 0 where
  stored rejected raises : Memory

-- The world of one call: what other processes do to the table before each access, the clock of the
-- write, and the memory layer.
pub record Turn : Type 0 where
  pub before_read : Rows → Rows
  pub before_write : Rows → Rows
  pub before_verify : Rows → Rows
  pub now : ℕ
  pub memory : Memory

-- The dictionary that is returned: "duplicate_blocked" with the state that stays and the one that was
-- attempted, or "stored" with `memory_summary_failed`.
pub data Reply : Type 0 where
  duplicate_blocked : State → State → Reply
  stored : State → Bool → Reply

-- The arguments of a call.
pub record Update : Type 0 where
  pub key : TaskKey
  pub new_state : State
  pub context : Option String
  pub correlation : Option String

abbrev pub state_of : Option Row → Option State
state_of none = none
state_of (some r) = some r.state

-- current_state in ("COMPLETED", "DEGRADED")
abbrev pub is_finished : Option State → Bool
is_finished none = false
is_finished (some s) = member s (completed ∷ degraded ∷ [])

-- The guard that stands before the check of the transition.
abbrev pub is_duplicate : Option State → State → Bool
is_duplicate current new =
    is_finished current && member new (pong_received ∷ completed ∷ side_report_received ∷ [])

-- _TERMINAL_STATES_FOR_MEMORY_SUMMARY
abbrev pub has_summary : State → Bool
has_summary s = member s (completed ∷ degraded ∷ dispatch_failed ∷ [])

-- The terminal summary, after the state has been written.
abbrev pub summarise : State → Memory → Result Error Reply
summarise new Memory.stored = ok (stored new false)
summarise new rejected = ok (stored new true)
summarise new raises = raise memory_error

-- From the read-back on.
abbrev pub conclude : State → Memory → Option Row → Result Error Reply
conclude new memory none = raise delivery_state_write_failed
conclude new memory (some r) =
    if same r.state new
    then if has_summary new then summarise new memory else ok (stored new false)
    else raise delivery_state_write_failed

-- The write and its read-back.
unfoldable pub store : Turn → Update → Rows → Result Error Reply × Rows
store turn u t =
    let t' = turn.before_verify (
      write_state turn.now default_ttl u.key u.new_state u.context u.correlation
        (turn.before_write t)) in
    (conclude u.new_state turn.memory (read_state u.key t'), t')

abbrev pub answer_duplicate : Option State → State → Result Error Reply
answer_duplicate none new = ok (stored new false)
answer_duplicate (some s) new = ok (duplicate_blocked s new)

-- After the state has been read.
unfoldable pub advance : Turn → Update → Option State → Rows → Result Error Reply × Rows
unfolding store
advance turn u current t =
    if is_duplicate current u.new_state
    then (answer_duplicate current u.new_state, t)
    else elim (validate current u.new_state) [ ok _ ↦ store turn u t | raise e ↦ (raise e, t) ]

unfoldable pub update_delivery_state : Turn → Update → Rows → Result Error Reply × Rows
unfolding advance
update_delivery_state turn u t =
    let t' = turn.before_read t in advance turn u (state_of (read_state u.key t')) t'

-- The state, context and correlation of the row.
abbrev pub shown : Option Row → Option (State × Option String × Option String)
shown none = none
shown (some r) = some (r.state, r.context, r.correlation)

abbrev pub get_delivery_state : TaskKey → Rows → Option (State × Option String × Option String)
get_delivery_state k t = shown (read_state k t)
