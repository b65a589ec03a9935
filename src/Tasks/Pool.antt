-- ===== src/Tasks/Pool.antt =====
-- task_pool.py: claims on the tasks of the board. Each operation holds the lock of the board from its
-- first access of the snapshot to its last, so an operation is one step on the file.
pub mod Outcomes
pub mod Exclusive
use herdr_bridge.Prelude.{
  ℕ, Bool, true, false, not, Option, none, some, List, [], ◌∷◌, String, ◌==◌, text_key, Result, ok,
  raise, ltb, if◌then◌else◌,
}
use herdr_bridge.Tasks.Dict.{Dict, get, put, pop}
use herdr_bridge.Tasks.Value.{
  Value, text, Task, Board, Snapshot, missing, corrupt, holds, Error, key_error, file_not_found,
  json_decode_error, event_log_write_error,
}
use herdr_bridge.Tasks.Board.{Tasks}

-- What one call of `store_memory` does: the status of its answer, an OSError, or another exception.
pub data Stored : Type 0 where
  status : String → Stored
  os_error : Stored
  other_exception : Stored

-- One pass of the loop of `_append_event_with_retry`: is the deadline over, and the call.
pub record Try : Type 0 where
  pub is_late : Bool
  pub call : Stored

abbrev pub is_stored : String → Bool
is_stored s = if s == "stored" then true else s == "ok"

-- The passes that are left, one for each delay.
unfoldable pub append_event : List Try → Result Error (Unit {0})
append_event [] = raise event_log_write_error
append_event (t ∷ tries) =
    let later = append_event tries in
    if t.is_late then raise event_log_write_error else elim t.call [
      | status s ↦ if is_stored s then ok tt else later
      | os_error ↦ later
      | other_exception ↦ raise Error.other_error
    ]

-- `_append_event_with_retry`: there are four delays.
unfoldable pub append_event_with_retry : Try → Try → Try → Try → Result Error (Unit {0})
unfolding append_event
append_event_with_retry a b c d = append_event (a ∷ b ∷ c ∷ d ∷ [])

-- The calls of `store_memory` that one operation may come to.
pub record Log : Type 0 where
  pub first : Try
  pub second : Try
  pub third : Try
  pub fourth : Try

abbrev pub logged : Log → Result Error (Unit {0})
logged log = append_event_with_retry log.first log.second log.third log.fourth

-- board = json.loads(…), board["tasks"].get(task_id), and what follows.
abbrev pub with_task {ℓ} :
    {A : Type ℓ}
    → String
    → Snapshot
    → (Board → Tasks → Option Task → Result Error A × Snapshot)
    → Result Error A × Snapshot
with_task id missing step = (raise file_not_found, missing)
with_task id corrupt step = (raise json_decode_error, corrupt)
with_task id (holds board) step = elim board.tasks [
  | none ↦ (raise key_error, holds board)
  | some tasks ↦ step board tasks (get id tasks)
]

-- value == name
abbrev pub is_text : String → Value → Bool
is_text name (text s) = s == name
is_text name _ = false

-- The board after `task[…] = …`.
abbrev pub with_changed : Board → Tasks → String → Task → Board
with_changed board tasks id task = record board { tasks = some (put id task tasks) }

abbrev pub claimed : String → String → Task → Task
claimed agent now task =
    put "claimed_at" (text now) (put "claimed_by" (text agent) (put "status" (text "claimed") task))

-- except EventLogWriteError
abbrev pub is_log_error : Error → Bool
is_log_error event_log_write_error = true
is_log_error _ = false

-- After the snapshot has been written: only an EventLogWriteError writes the old one back.
abbrev pub settle_claim : Board → Board → Result Error (Unit {0}) → Result Error Bool × Snapshot
settle_claim old new (ok _) = (ok true, holds new)
settle_claim old new (raise e) =
    if is_log_error e then (raise e, holds old) else (raise e, holds new)

-- From the test of the status on.
abbrev pub claim_status :
    String
    → String
    → String
    → Log
    → Board
    → Tasks
    → Task
    → Option Value
    → Result Error Bool × Snapshot
claim_status id agent now log board tasks task none = (raise key_error, holds board)
claim_status id agent now log board tasks task (some v) =
    if is_text "pending" v
    then settle_claim board (with_changed board tasks id (claimed agent now task)) (logged log)
    else (ok false, holds board)

abbrev pub claim_task :
    String → String → String → Log → Board → Tasks → Option Task → Result Error Bool × Snapshot
claim_task id agent now log board tasks none = (ok false, holds board)
claim_task id agent now log board tasks (some task) =
    claim_status id agent now log board tasks task (get "status" task)

unfoldable pub claim : String → String → String → Log → Snapshot → Result Error Bool × Snapshot
claim id agent now log file = with_task id file (claim_task id agent now log)

abbrev pub unclaimed : Task → Task
unclaimed task = pop "heartbeat_ts" (pop "claimed_by" (put "status" (text "pending") task))

-- An EventLogWriteError is only logged, and the snapshot stays as written.
abbrev pub settle_unclaim : Board → Result Error (Unit {0}) → Result Error (Unit {0}) × Snapshot
settle_unclaim new (ok _) = (ok tt, holds new)
settle_unclaim new (raise e) = if is_log_error e then (ok tt, holds new) else (raise e, holds new)

abbrev pub unclaim_task :
    String → Log → Board → Tasks → Option Task → Result Error (Unit {0}) × Snapshot
unclaim_task id log board tasks none = (ok tt, holds board)
unclaim_task id log board tasks (some task) =
    settle_unclaim (with_changed board tasks id (unclaimed task)) (logged log)

-- The agent's name goes to the event log only.
unfoldable pub unclaim : String → String → Log → Snapshot → Result Error (Unit {0}) × Snapshot
unclaim id agent log file = with_task id file (unclaim_task id log)

-- task.get("claimed_by") == agent_id
abbrev pub is_claimed_by : String → Option Value → Bool
is_claimed_by agent none = false
is_claimed_by agent (some v) = is_text agent v

abbrev pub beat_task :
    String → String → String → Board → Tasks → Option Task → Result Error (Unit {0}) × Snapshot
beat_task id agent now board tasks none = (ok tt, holds board)
beat_task id agent now board tasks (some task) =
    if is_claimed_by agent (get "claimed_by" task)
    then (ok tt, holds (with_changed board tasks id (put "heartbeat_ts" (text now) task)))
    else (ok tt, holds board)

unfoldable pub heartbeat : String → String → String → Snapshot → Result Error (Unit {0}) × Snapshot
heartbeat id agent now file = with_task id file (beat_task id agent now)

-- One task of the list, before those that follow.
abbrev pub keep_pending : Task → Option Value → Result Error (List Task) → Result Error (List Task)
keep_pending task none rest = raise key_error
keep_pending task (some v) (raise e) = raise e
keep_pending task (some v) (ok rest) = if is_text "pending" v then ok (task ∷ rest) else ok rest

unfoldable pub pending_tasks : Tasks → Result Error (List Task)
pending_tasks [] = ok []
pending_tasks ((id, task) ∷ tasks) = keep_pending task (get "status" task) (pending_tasks tasks)

unfoldable pub list_claimable : Snapshot → Result Error (List Task)
unfolding pending_tasks
list_claimable missing = ok []
list_claimable corrupt = raise json_decode_error
list_claimable (holds board) = elim board.tasks [
  | none ↦ raise key_error
  | some tasks ↦ pending_tasks tasks
]
