-- ===== src/Tasks/Reaper/Stale.antt =====
-- A scan for silent claims in signal/daemon.py decides on tasks that others may have changed since.
use herdr_bridge.Prelude.{
  ℕ, ◌≡◌, refl, ap, ◌∙◌, Bool-cases, true, false, some, List, [], ◌∷◌, ◌++◌, String, ◌==◌, text_key,
  inl, inr, All,
}
use herdr_bridge.Tasks.Dict.{get}
use herdr_bridge.Tasks.Value.{text, Task, Board, Snapshot, holds}
use herdr_bridge.Tasks.Board.{or_no_tasks}
use herdr_bridge.Tasks.Pool.{Log, unclaimed, unclaim}
use herdr_bridge.Tasks.Pool.Outcomes.{task_in, unclaim-Touches}
use herdr_bridge.Tasks.Reaper.{Scan, is_due, unclaim_id, reap_tasks, scan_and_reap_expired_claims}
use herdr_bridge.Tasks.Reaper.Abandoned.{is_abandoned, due-is_abandoned}
use herdr_bridge.Tasks.Reaper.Reaped.{unclaim_present, go_on_lem}

-- An unclaim leaves every other task alone.
unclaim_other :
    (j id agent : String) (log : Log) (file : Snapshot)
    → (j == id) ≡ false
    → task_in id (unclaim j agent log file).1 ≡ task_in id file
unclaim_other j id agent log file n = elim (unclaim-Touches j agent log file) [
  | inl e ↦ ap (task_in id) e
  | inr (old, new, there, r, all) ↦ all id ∙ rw n refl
]

module _ (scan : Scan) (id : String) where
  -- Another task with its own id, at whose turn nobody touches this one.
  abbrev pub IsOther : String × Task → Type 0
  IsOther x =
      ((x.0 == id) ≡ false)
      × (get "task_id" x.1 ≡ some (text x.0))
      × ((file : Snapshot) → task_in id (scan.others x.1 file) ≡ task_in id file)

  turn_of_other :
      (x : String × Task) (file : Snapshot)
      → IsOther x
      → task_in id (unclaim_id (scan.log x.1) (get "task_id" x.1) (scan.others x.1 file)).1
        ≡ task_in id file
  turn_of_other x file h =
      rw h.1 (unclaim_other x.0 id "unknown" (scan.log x.1) (scan.others x.1 file) h.0 ∙ h.2 file)

  rest_leaves :
      (tasks : List (String × Task)) (n : ℕ) (file : Snapshot)
      → All IsOther tasks
      → task_in id (reap_tasks scan tasks n file).1 ≡ task_in id file
  unfolding reap_tasks
  rest_leaves [] n file h = refl
  rest_leaves ((j, task) ∷ tasks) n file h =
      let done = unclaim_id (scan.log task) (get "task_id" task) (scan.others task file) in
      elim (Bool-cases (is_due scan task)) [
        | inl d ↦ rw d (
            go_on_lem id (task_in id file) (get "task_id" task) (text j) h.0.1 done.0 n
              (λ m. reap_tasks scan tasks m done.1) done.1
              (λ m. rest_leaves tasks m done.1 h.1 ∙ turn_of_other (j, task) file h.0))
        | inr d ↦ rw d (rest_leaves tasks n file h.1)
      ]

  module _ (task fresh : Task) (own : get "task_id" task ≡ some (text id))
      (abandoned : is_abandoned scan task ≡ true)
      (meanwhile : (file : Snapshot) → task_in id (scan.others task file) ≡ some fresh)
      (after : List (String × Task)) (others : All IsOther after) where
    reaches_stale :
        (before : List (String × Task)) (n : ℕ) (file : Snapshot)
        → All IsOther before
        → task_in id (reap_tasks scan (before ++ (id, task) ∷ after) n file).1
          ≡ some (unclaimed fresh)
    unfolding reap_tasks
    reaches_stale [] n file h =
        let done = unclaim_id (scan.log task) (get "task_id" task) (scan.others task file) in
        let reset : task_in id done.1 ≡ some (unclaimed fresh) = rw own (
          unclaim_present id "unknown" (scan.log task) (scan.others task file) fresh
            (meanwhile file) id
          ∙ rw ((text_key.eqb_iff id id).1 refl) refl) in
        rw (due-is_abandoned scan task ∙ abandoned) (
          go_on_lem id (some (unclaimed fresh)) (get "task_id" task) (text id) own done.0 n
            (λ m. reap_tasks scan after m done.1) done.1
            (λ m. rest_leaves after m done.1 others ∙ reset))
    reaches_stale ((j, other) ∷ before) n file h =
        let done = unclaim_id (scan.log other) (get "task_id" other) (scan.others other file) in
        elim (Bool-cases (is_due scan other)) [
          | inl d ↦ rw d (
              go_on_lem id (some (unclaimed fresh)) (get "task_id" other) (text j) h.0.1 done.0 n
                (λ m. reap_tasks scan (before ++ (id, task) ∷ after) m done.1) done.1
                (λ m. reaches_stale before m done.1 h.1))
          | inr d ↦ rw d (reaches_stale before n file h.1)
        ]

-- The scan decides on what it read before the lock. Where a task was claimed and silent then, and others
-- have made anything else of it by the turn of its unclaim, a new claim or a finished task too, it is
-- reset to pending by the scan, whatever other tasks the board has, if each of them holds its own id and nobody
-- touches this task at their turns.
pub reap_resets_fresh :
    (scan : Scan) (id : String) (task fresh : Task) (board : Board)
    (before after : List (String × Task))
    → board.tasks ≡ some (before ++ (id, task) ∷ after)
    → get "task_id" task ≡ some (text id)
    → is_abandoned scan task ≡ true
    → ((file : Snapshot) → task_in id (scan.others task file) ≡ some fresh)
    → All (IsOther scan id) before
    → All (IsOther scan id) after
    → task_in id (scan_and_reap_expired_claims scan (holds board)).1 ≡ some (unclaimed fresh)
unfolding scan_and_reap_expired_claims
reap_resets_fresh scan id task fresh board before after b own abandoned meanwhile first rest =
    ap (λ o. task_in id (reap_tasks scan (or_no_tasks o) 0 (holds board)).1) b
    ∙ reaches_stale scan id task fresh own abandoned meanwhile after rest before 0 (holds board)
        first
