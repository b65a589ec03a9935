-- ===== src/Tasks/Tests.antt =====
-- The board and the pool on concrete tasks.
use herdr_bridge.Prelude.{◌≡◌, ◌≢◌, refl, true, false, some, List, [], ◌∷◌, String, ok, All}
use herdr_bridge.Tasks.Dict.{Dict, get, put, join}
use herdr_bridge.Tasks.Value.{Value, text, is_given, Task, Board, Snapshot, holds}
use herdr_bridge.Tasks.Transition.{apply_transition, allowed_transitions, contains}
use herdr_bridge.Tasks.Lifecycle.{Reaches, start, step, done_has_receipt}
use herdr_bridge.Tasks.Lifecycle.Closed.{closed_states, closed_stays}
use herdr_bridge.Tasks.Board.{Event, project_event, project_events, reconcile_snapshot_from_events}
use herdr_bridge.Tasks.Board.Projection.{tasks_of, subject, reconcile_keeps_tasks}
use herdr_bridge.Tasks.Reaper.{Scan, scan_and_reap_expired_claims}
use herdr_bridge.Tasks.Reaper.Stale.{reap_resets_fresh}
use herdr_bridge.Tasks.Reaper.Reaped.{reaped, scan-reaped}
use herdr_bridge.Tasks.Pool.Outcomes.{task_in}
use herdr_bridge.Tasks.Pool.{
  unclaimed, status, os_error, Log, append_event, append_event_with_retry, claim,
}
use herdr_bridge.Tasks.Pool.Exclusive.{Operation, claims, beats, run, IsHeld, claim_is_exclusive}

abbrev pending_task : Task
pending_task = ("task_id", text "T1") ∷ ("status", text "pending") ∷ []

abbrev receipt : Dict Value
receipt = ("dispatch_receipt", text "receipt-1") ∷ []

abbrev working_task : Task
working_task = ("task_id", text "T1") ∷ ("status", text "in_progress") ∷ []

abbrev done_task : Task
done_task = ("task_id", text "T1") ∷ ("status", text "done") ∷ receipt

abbrev cancelled_task : Task
cancelled_task = ("task_id", text "T1") ∷ ("status", text "cancelled") ∷ receipt

working-Reaches : Reaches pending_task working_task
unfolding apply_transition allowed_transitions get put join
working-Reaches = step "in_progress" [] start tt refl refl

done-Reaches : Reaches pending_task done_task
unfolding apply_transition allowed_transitions get put join
done-Reaches = step "done" receipt working-Reaches (refl, tt) refl refl

done_has_receipt_example : is_given (get "dispatch_receipt" done_task) ≡ true
unfolding get
done_has_receipt_example = done_has_receipt pending_task done_task refl done-Reaches refl

abbrev reason : Dict Value
reason = ("blocked_reason", text "waits for T2") ∷ []

abbrev blocked_task : Task
blocked_task = ("task_id", text "T1") ∷ ("status", text "blocked") ∷ reason

blocked-Reaches : Reaches pending_task blocked_task
unfolding apply_transition allowed_transitions get put join
blocked-Reaches = step "blocked" reason working-Reaches (refl, tt) refl refl

cancelled-Reaches : Reaches done_task cancelled_task
unfolding apply_transition allowed_transitions get put join
cancelled-Reaches = step "cancelled" [] start tt refl refl

-- A field named `status` replaces the state that was checked.
status_field_replaces :
    apply_transition pending_task "cancelled" (("status", text "done") ∷ [])
    ≡ ok (("task_id", text "T1") ∷ ("status", text "done") ∷ [])
unfolding apply_transition put join get
status_field_replaces = refl

closed_stays_example :
    (s : String) × (get "status" cancelled_task ≡ some (text s)) × (contains s closed_states ≡ true)
unfolding get
closed_stays_example = closed_stays done_task cancelled_task "done" refl refl cancelled-Reaches

abbrev board : Board
board = record { tasks = some (("T1", pending_task) ∷ ("T2", pending_task) ∷ []); others = [] }

abbrev claim_event : Event
claim_event =
    ("kind", text "task_status_changed")
    ∷ ("task_id", text "T1")
    ∷ ("new_status", text "claimed")
    ∷ ("ts", text "now")
    ∷ []

abbrev claimed_task : Task
claimed_task = ("task_id", text "T1") ∷ ("status", text "claimed") ∷ ("updated_at", text "now") ∷ []

abbrev board_after : Board
board_after = record {
  tasks = some (("T1", claimed_task) ∷ ("T2", pending_task) ∷ []);
  others = [];
}

reconcile_keeps_tasks_example :
    (holds board_after ≡ holds board_after)
    × (task : Task) × (get "T2" (tasks_of board_after) ≡ some task)
    × (All (λ e. subject e ≢ some "T2") (claim_event ∷ []) → task ≡ pending_task)
unfolding reconcile_snapshot_from_events project_events project_event get put
reconcile_keeps_tasks_example =
    reconcile_keeps_tasks (λ s. s) "T2" (claim_event ∷ []) board board_after (holds board_after)
      pending_task refl refl

-- The second try is stored.
abbrev log : Log
log = record {
  first = record { is_late = false; call = os_error };
  second = record { is_late = false; call = status "stored" };
  third = record { is_late = false; call = os_error };
  fourth = record { is_late = false; call = os_error };
}

abbrev operations : List Operation
operations = claims "T2" "rival" "now" log ∷ beats "T1" "agent" "later" ∷ []

abbrev first_claim : Snapshot
first_claim = (claim "T1" "agent" "now" log (holds board)).1

claim_is_exclusive_example :
    IsHeld "T1" "agent" (run operations first_claim)
    × ((claim "T1" "rival" "later" log (run operations first_claim)).0 ≢ ok true)
unfolding claim append_event_with_retry append_event get put
claim_is_exclusive_example =
    claim_is_exclusive "T1" "agent" "now" log (holds board) operations "rival" "later" log refl
      (refl, (refl, tt))

abbrev silent_task : Task
silent_task =
    ("task_id", text "T1")
    ∷ ("status", text "claimed")
    ∷ ("claimed_by", text "agent")
    ∷ ("heartbeat_ts", text "then")
    ∷ []

abbrev silent_board : Board
silent_board = record { tasks = some (("T1", silent_task) ∷ []); others = [] }

abbrev quiet_scan : Scan
quiet_scan = record { age = λ v. some 90001; others = λ task file. file; log = λ task. log }

scan-reaped_example :
    task_in "T1" (scan_and_reap_expired_claims quiet_scan (holds silent_board)).1
    ≡ reaped quiet_scan (task_in "T1" (holds silent_board)) (task_in "T1" (holds silent_board))
unfolding get
scan-reaped_example =
    scan-reaped quiet_scan (λ task file. refl) silent_board (("T1", silent_task) ∷ []) refl
      (refl, tt) (refl, tt) "T1"

-- In the meantime the agent has finished the task.
abbrev finished_board : Board
finished_board = record { tasks = some (("T1", done_task) ∷ []); others = [] }

abbrev busy_scan : Scan
busy_scan = record {
  age = λ v. some 90001;
  others = λ task file. holds finished_board;
  log = λ task. log;
}

reap_resets_fresh_example :
    task_in "T1" (scan_and_reap_expired_claims busy_scan (holds silent_board)).1
    ≡ some (unclaimed done_task)
unfolding get
reap_resets_fresh_example =
    reap_resets_fresh busy_scan "T1" silent_task done_task silent_board [] [] refl refl refl
      (λ file. refl) tt tt
