-- ===== src/Fleet.antt =====
-- fleet_health.py: the anomalies of a board, and the suppression of alarms that were raised before.
pub mod Alarms
mod Tests
use Prim.Native.Nat.{◌/◌}
use herdr_bridge.Prelude.{
  ℕ, ◌*◌, Bool, true, false, not, ◌&&◌, ◌||◌, Option, none, some, List, [], ◌∷◌, ◌++◌, String, ◌==◌,
  text_key, pair_key, Result, ok, raise, ltb, if◌then◌else◌,
}
use herdr_bridge.Table.{find, upsert}
use herdr_bridge.Tasks.Dict.{Dict, get}
use herdr_bridge.Tasks.Value.{Value, null, text, flag, number, container, truth, Task, Board, Error}
use herdr_bridge.Tasks.Board.{Tasks, get_or, key_of, or_no_tasks}
use herdr_bridge.Tasks.Pool.{is_text}

-- An entry of `signature_detail`.
pub data Detail : Type 0 where
  stamp : Value → Detail
  tier : ℕ → Detail
  count : ℕ → Detail

-- `message`, `suggested_action` and `detail` are texts for a reader and left out.
pub record Anomaly : Type 0 where
  pub rule_code : String
  pub severity : String
  pub task_id : Value
  pub worker : Option Value
  pub signature_detail : Dict Detail

-- The keyword arguments, in milliseconds and thousandths, and what the standard library does to values:
-- the age of a time stamp, `float`, and whether a text is blank. A parse that raises is none.
pub record Health : Type 0 where
  pub age : Value → Option ℕ
  pub float : Value → Option ℕ
  pub is_blank : String → Bool
  pub heartbeat_stale : ℕ
  pub error_count_threshold : ℕ

abbrev pub anomaly : String → String → Value → Task → Dict Detail → Anomaly
anomaly rule severity id task signature = record {
  rule_code = rule;
  severity = severity;
  task_id = id;
  worker = get "claimed_by" task;
  signature_detail = signature;
}

-- A heartbeat that is there.
abbrev pub check_age : Health → Value → Task → Value → Option ℕ → List Anomaly
check_age h id task hb none =
    anomaly "heartbeat_malformed" "warning" id task (("heartbeat_ts", stamp hb) ∷ []) ∷ []
check_age h id task hb (some age) =
    if ltb h.heartbeat_stale age
    then anomaly "heartbeat_stale" "critical" id task
        (("heartbeat_ts", stamp hb) ∷ ("stale_tier", tier (age / h.heartbeat_stale)) ∷ [])
      ∷ []
    else []

abbrev pub status_of : Task → Value
status_of task = get_or null (get "status" task)

abbrev pub check_heartbeat : Health → Value → Task → List Anomaly
check_heartbeat h id task =
    let hb = get_or null (get "heartbeat_ts" task) in
    if is_text "claimed" (status_of task) || is_text "in_progress" (status_of task)
    then if truth hb then check_age h id task hb (h.age hb) else []
    else []

abbrev pub count_of : Health → Value → Option ℕ
count_of h (flag _) = none
count_of h v = h.float v

abbrev pub exceeds : Health → Value → Task → Option ℕ → List Anomaly
exceeds h id task none = []
exceeds h id task (some n) =
    if ltb h.error_count_threshold n
    then anomaly "error_count_exceeded" "critical" id task (("error_count", count n) ∷ []) ∷ []
    else []

abbrev pub check_errors : Health → Value → Task → Option Value → List Anomaly
check_errors h id task none = []
check_errors h id task (some null) = []
check_errors h id task (some v) = exceeds h id task (count_of h v)

abbrev pub is_void : Health → Value → Bool
is_void h null = true
is_void h (text s) = h.is_blank s
is_void h (container s b) = not b
is_void h _ = false

abbrev pub check_delivery : Health → Value → Task → Option Value → List Anomaly
check_delivery h id task none = []
check_delivery h id task (some content) =
    if is_text "done" (status_of task) && is_void h content
    then anomaly "empty_delivery" "critical" id task [] ∷ []
    else []

-- One pass of the loop.
unfoldable pub check_task : Health → Task → List Anomaly
check_task h task =
    let id = get_or null (get "task_id" task) in
    if truth id
    then check_heartbeat h id task
      ++ check_errors h id task (get "error_count" task)
      ++ check_delivery h id task (get "delivered_content" task)
    else []

unfoldable pub check_tasks : Health → Tasks → List Anomaly
unfolding check_task
check_tasks h [] = []
check_tasks h ((key, task) ∷ tasks) = check_task h task ++ check_tasks h tasks

-- check_fleet_health
unfoldable pub check_fleet_health : Health → Board → List Anomaly
unfolding check_tasks
check_fleet_health h board = check_tasks h (or_no_tasks board.tasks)

-- Anomaly.key
abbrev pub AlarmKey : Type 0
AlarmKey = String × String

abbrev pub Seen : Type 0
Seen = List (AlarmKey × String)

abbrev pub seen_key : AlarmKey × String → AlarmKey
seen_key e = e.0

-- new_seen[key] = signature
unfoldable pub record_seen : AlarmKey × String → Seen → Seen
record_seen e new = upsert seen_key e (λ r. (r.0, e.1)) new

abbrev pub is_same : Option (AlarmKey × String) → String → Bool
is_same none signature = false
is_same (some e) signature = e.1 == signature

abbrev pub Filtered : Type 0
Filtered = Result Error (List Anomaly × Seen)

abbrev pub with_key : Result Error String → (String → Filtered) → Filtered
with_key (ok id) next = next id
with_key (raise e) next = raise e

-- The anomaly stands before the rest, unless its signature was seen.
abbrev pub add_alarm : Bool → Anomaly → Filtered → Filtered
add_alarm true a rest = rest
add_alarm false a (ok (fresh, new)) = ok (a ∷ fresh, new)
add_alarm false a (raise e) = raise e

-- `repr` of the sorted items of a signature is a parameter, and `key` gives the key of an anomaly as a
-- text; a task id that is no key of a dictionary makes the function raise.
module _ (repr : Dict Detail → String) where
  -- The entry of an anomaly in `new_seen`.
  abbrev pub entry : Anomaly → String → AlarmKey × String
  entry a id = ((id, a.rule_code), repr a.signature_detail)

  -- The loop, with `new_seen` so far: the new alarms and the final `new_seen`.
  unfoldable pub filter_from : List Anomaly → Seen → Seen → Filtered
  filter_from [] seen new = ok ([], new)
  filter_from (a ∷ anomalies) seen new = with_key (key_of a.task_id) (λ id.
      let e = entry a id in
      add_alarm (is_same (find seen_key e.0 seen) e.1) a
        (filter_from anomalies seen (record_seen e new)))

  -- filter_new_anomalies
  unfoldable pub filter_new_anomalies : List Anomaly → Seen → Filtered
  unfolding filter_from
  filter_new_anomalies current seen = filter_from current seen []
