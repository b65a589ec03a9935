-- ===== src/Tasks/Board.antt =====
-- The projection of events on the board: orchestration/task_board.py.
pub mod Projection
use Prim.Native.String.{◌++◌}
use herdr_bridge.Prelude.{
  Bool, true, false, Option, none, some, List, [], ◌∷◌, String, ◌==◌, text_key, Result, ok, raise,
  if◌then◌else◌,
}
use herdr_bridge.Tasks.Dict.{Dict, get, put}
use herdr_bridge.Tasks.Value.{
  Value, null, text, flag, number, container, truth, Task, Board, empty_board, Snapshot, missing,
  corrupt, holds, Error, key_error, type_error, attribute_error, required,
}

abbrev pub Event : Type 0
Event = Dict Value

-- d.get(k, default)
abbrev pub get_or : Value → Option Value → Value
get_or default none = default
get_or default (some v) = v

-- An f-string of the value.
abbrev pub shown : Value → String
shown null = "None"
shown (text s) = s
shown (flag true) = "True"
shown (flag false) = "False"
shown (number s _) = s
shown (container s _) = s

-- A value as a key of `tasks`: what is no text is a key by its JSON text, which is what the snapshot
-- writes, and a list or object is no key. Values with one JSON text are one key here; in the dictionary of
-- the source they are keys of their own until it is written.
abbrev pub key_of : Value → Result Error String
key_of null = ok "null"
key_of (text s) = ok s
key_of (flag true) = ok "true"
key_of (flag false) = ok "false"
key_of (number s _) = ok s
key_of (container _ _) = raise type_error

abbrev pub Tasks : Type 0
Tasks = Dict Task

abbrev pub or_no_tasks : Option Tasks → Tasks
or_no_tasks none = []
or_no_tasks (some tasks) = tasks

-- tasks.setdefault(id, default)
abbrev pub found_or : Task → Option Task → Task
found_or default none = default
found_or default (some task) = task

abbrev pub new_task : String → Task
new_task id = ("task_id", text id) ∷ ("status", text "pending") ∷ []

abbrev pub legacy_task : String → Task
legacy_task id = ("task_id", text id) ∷ ("status", text "pending") ∷ ("_legacy", flag true) ∷ []

-- if key in event: task[key] = event[key]
abbrev pub copied : String → Option Value → Task → Task
copied key none task = task
copied key (some v) task = put key v task

abbrev pub copy_all : List String → Event → Task → Task
copy_all [] event task = task
copy_all (key ∷ keys) event task = copy_all keys event (copied key (get key event) task)

abbrev pub copied_keys : List String
copied_keys = "claimed_by" ∷ "claimed_at" ∷ "blocked_reason" ∷ "dispatch_receipt" ∷ []

-- The branch "task_status_changed", once its id and its status are known.
abbrev pub with_status : Event → Value → Task → Task
with_status event new task =
    copy_all copied_keys event
      (put "updated_at" (get_or null (get "ts" event)) (put "status" new task))

abbrev pub place : String → Result Error Task → Tasks → Result Error Tasks
place id (ok task) tasks = ok (put id task tasks)
place id (raise e) tasks = raise e

-- The task of the key, changed in place.
abbrev pub write_task :
    Result Error String → (String → Result Error Task) → Tasks → Result Error Tasks
write_task (ok id) change tasks = place id (change id) tasks
write_task (raise e) change tasks = raise e

-- event["task_id"]
abbrev pub key_in : Option Value → Result Error String
key_in none = raise key_error
key_in (some v) = key_of v

abbrev pub with_new : Event → Option Value → Task → Result Error Task
with_new event none task = raise key_error
with_new event (some new) task = ok (with_status event new task)

abbrev pub change_status : Event → Tasks → Result Error Tasks
change_status event tasks =
    write_task (key_in (get "task_id" event))
      (λ id. with_new event (get "new_status" event) (found_or (new_task id) (get id tasks))) tasks

-- `a or b` of two lookups.
abbrev pub either : Option Value → Option Value → Value
either none b = get_or null b
either (some v) b = if truth v then v else get_or null b

-- _LEGACY_STATUS_MAP
abbrev pub legacy_status_map : Dict String
legacy_status_map =
    ("in_progress", "claimed")
    ∷ ("running", "claimed")
    ∷ ("done", "completed")
    ∷ ("finished", "done")
    ∷ ("error", "failed")
    ∷ ("blocked", "blocked")
    ∷ []

abbrev pub mapped : String → Option String → String
mapped s none = s
mapped s (some t) = t

-- event.get("task_id") or the id that is made up
abbrev pub handoff_id : Event → Value
handoff_id event =
    let made_up = text ("legacy_handoff_" ++ shown (get_or (text "") (get "ts" event))) in
    let given = get_or null (get "task_id" event) in if truth given then given else made_up

abbrev pub handed_off : Event → Task → Task
handed_off event task =
    put "claimed_by" (get_or null (get "to_agent" event)) (put "status" (text "claimed") task)

abbrev pub hand_off : Event → Tasks → Result Error Tasks
hand_off event tasks =
    write_task (key_of (handoff_id event))
      (λ id. ok (handed_off event (found_or (legacy_task id) (get id tasks)))) tasks

abbrev pub legacy_id : Event → String
legacy_id event =
    "legacy_"
    ++ shown (get_or (text "unknown") (get "agent_id" event))
    ++ "_"
    ++ shown (get_or (text "") (get "ts" event))

-- kind == name
abbrev pub is_kind : String → Value → Bool
is_kind name (text s) = s == name
is_kind name _ = false

abbrev pub on_board : Board → Result Error Tasks → Result Error Board
on_board board (ok tasks) = ok (record board { tasks = some tasks })
on_board board (raise e) = raise e

abbrev pub go_on : Result Error Board → (Board → Result Error Board) → Result Error Board
go_on (ok board) next = next board
go_on (raise e) next = raise e

-- The board that is returned, and the snapshot. An exception leaves the snapshot alone.
abbrev pub saved : Snapshot → Result Error Board → Result Error Board × Snapshot
saved file (ok board) = (ok board, holds board)
saved file (raise e) = (raise e, file)

abbrev pub base_board : Snapshot → Board
base_board missing = empty_board
base_board corrupt = empty_board
base_board (holds board) = board

-- `str.lower` is a parameter.
module _ (lower : String → String) where
  -- raw_status, if it is true: only a text has `lower`.
  abbrev pub legacy_status : Value → Task → Result Error Task
  legacy_status (text s) task =
      if truth (text s)
      then ok (put "status" (text (mapped (lower s) (get (lower s) legacy_status_map))) task)
      else ok task
  legacy_status v task = if truth v then raise attribute_error else ok task

  abbrev pub update_legacy : Event → Tasks → Result Error Tasks
  update_legacy event tasks =
      write_task (ok (legacy_id event))
        (λ id.
          legacy_status (either (get "status" event) (get "new_status" event))
            (found_or (legacy_task id) (get id tasks)))
        tasks

  -- _project_event
  unfoldable pub project_event : Event → Tasks → Result Error Tasks
  project_event event tasks =
      let kind = get_or (text "") (get "kind" event) in
      if is_kind "task_status_changed" kind
      then change_status event tasks
      else if is_kind "status_update" kind
      then update_legacy event tasks
      else if is_kind "task_handoff" kind
      then hand_off event tasks
      else ok tasks

  -- board.setdefault("tasks", {}), and the event.
  abbrev pub project_on : Event → Board → Result Error Board
  project_on event board = on_board board (project_event event (or_no_tasks board.tasks))

  -- The loop over the events.
  unfoldable pub project_events : List Event → Board → Result Error Board
  project_events [] board = ok board
  project_events (event ∷ events) board =
      go_on (project_on event board) (λ board'. project_events events board')

  unfoldable pub project_all_events : List Event → Result Error Board
  unfolding project_events
  project_all_events events = project_events events empty_board

  unfoldable pub refresh_snapshot : List Event → Snapshot → Result Error Board × Snapshot
  unfolding project_all_events
  refresh_snapshot events file = saved file (project_all_events events)

  unfoldable pub reconcile_snapshot_from_events :
      List Event → Snapshot → Result Error Board × Snapshot
  unfolding project_events
  reconcile_snapshot_from_events events file = saved file (project_events events (base_board file))
