-- ===== src/Tasks/Reaper.antt =====
-- `_scan_and_reap_expired_claims` of signal/daemon.py: the daemon gives back the claims whose agents
-- have been silent. It reads the snapshot without the lock, and each unclaim then takes the lock.
pub mod Abandoned
pub mod Reaped
pub mod Stale
use mathlib.Core.Path.{subst}
use herdr_bridge.Prelude.{
  ℕ, zero, suc, ◌+◌, ◌*◌, ◌≡◌, refl, sym, ap, ◌∙◌, Bool, true, false, Option, none, some, List, [],
  ◌∷◌, String, ◌==◌, text_key, Result, ok, raise, ltb, if◌then◌else◌, Bool-cases, Option-cases, inl,
  inr, All, arith,
}
use herdr_bridge.Tasks.Dict.{Dict, get, put, pop, get-put, get-pop}
use herdr_bridge.Tasks.Value.{
  Value, null, text, flag, number, container, Task, Board, Snapshot, missing, corrupt, holds, Error,
  key_error, type_error,
}
use herdr_bridge.Tasks.Board.{Tasks, get_or, or_no_tasks}
use herdr_bridge.Tasks.Pool.{
  Log, logged, with_task, with_changed, is_text, unclaimed, settle_unclaim, unclaim_task, unclaim,
}
use herdr_bridge.Tasks.Pool.Outcomes.{task_in, settle_unclaim-is_new}

-- _HEARTBEAT_TIMEOUT_SECONDS, in milliseconds
abbrev pub heartbeat_timeout : ℕ
heartbeat_timeout = 90 * 1000

-- What a scan meets: the age of a heartbeat, which is none where `fromisoformat` or the subtraction
-- raises, and for each task what others do before its unclaim, and the event log.
pub record Scan : Type 0 where
  pub age : Value → Option ℕ
  pub others : Task → Snapshot → Snapshot
  pub log : Task → Log

abbrev pub is_old : Option ℕ → Bool
is_old none = false
is_old (some age) = ltb heartbeat_timeout age

-- task.get("heartbeat_ts"), where None is as a missing one
abbrev pub is_silent : Scan → Value → Bool
is_silent scan null = false
is_silent scan v = is_old (scan.age v)

-- The tests that end in `continue`.
unfoldable pub is_due : Scan → Task → Bool
is_due scan task =
    if is_text "claimed" (get_or null (get "status" task))
    then is_silent scan (get_or null (get "heartbeat_ts" task))
    else false

-- pool.unclaim(task["task_id"], …): an id that is no text names no task.
abbrev pub unclaim_id : Log → Option Value → Snapshot → Result Error (Unit {0}) × Snapshot
unclaim_id log none file = (raise key_error, file)
unclaim_id log (some (text id)) file = unclaim id "unknown" log file
unclaim_id log (some (container _ _)) file = (raise type_error, file)
unclaim_id log (some _) file = with_task "" file (λ board tasks _. (ok tt, holds board))

-- reaped += 1, where the unclaim did not raise; the handler of an exception logs `task["task_id"]`, so
-- a task without an id ends the scan.
abbrev pub go_on :
    Option Value
    → Result Error (Unit {0})
    → ℕ
    → (ℕ → Result Error ℕ × Snapshot)
    → Snapshot
    → Result Error ℕ × Snapshot
go_on none r n next file = (raise key_error, file)
go_on (some _) (ok _) n next file = next (suc n)
go_on (some _) (raise e) n next file = next n

-- The loop over the tasks that were read.
unfoldable pub reap_tasks : Scan → List (String × Task) → ℕ → Snapshot → Result Error ℕ × Snapshot
reap_tasks scan [] n file = (ok n, file)
reap_tasks scan ((key, task) ∷ tasks) n file =
    let (r, file') = unclaim_id (scan.log task) (get "task_id" task) (scan.others task file) in
    if is_due scan task
    then go_on (get "task_id" task) r n (λ m. reap_tasks scan tasks m file') file'
    else reap_tasks scan tasks n file

unfoldable pub scan_and_reap_expired_claims : Scan → Snapshot → Result Error ℕ × Snapshot
unfolding reap_tasks
scan_and_reap_expired_claims scan missing = (ok 0, missing)
scan_and_reap_expired_claims scan corrupt = (ok 0, corrupt)
scan_and_reap_expired_claims scan (holds board) =
    reap_tasks scan (or_no_tasks board.tasks) 0 (holds board)
