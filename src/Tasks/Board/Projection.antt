-- ===== src/Tasks/Board/Projection.antt =====
-- What a projection of events keeps of the board.
use mathlib.Core.Path.{subst}
use herdr_bridge.Prelude.{
  ◌≡◌, refl, ap, ◌∙◌, Bool, true, false, Option, none, some, List, [], ◌∷◌, String, ◌==◌, text_key,
  Result, ok, raise, if◌then◌else◌, Bool-cases, inl, inr, ◌⊎◌, ◌≢◌, All, arith,
}
use herdr_bridge.Tasks.Dict.{get, put, get-put}
use herdr_bridge.Tasks.Value.{text, Task, Board, Snapshot, holds, Error}
use herdr_bridge.Tasks.Board.{
  Event, Tasks, get_or, key_of, is_kind, handoff_id, or_no_tasks, change_status, key_in, place,
  write_task, legacy_id, legacy_status, either, found_or, legacy_task, on_board, go_on,
  update_legacy, hand_off, project_event, project_on, project_events, saved,
  reconcile_snapshot_from_events,
}

abbrev text_of : Result Error String → Option String
text_of (ok id) = some id
text_of (raise e) = none

-- The task that an event is about.
abbrev pub subject : Event → Option String
subject event =
    let kind = get_or (text "") (get "kind" event) in
    if is_kind "task_status_changed" kind
    then text_of (key_in (get "task_id" event))
    else if is_kind "status_update" kind
    then some (legacy_id event)
    else if is_kind "task_handoff" kind
    then text_of (key_of (handoff_id event))
    else none

abbrev WritesAt : Option String → Tasks → Tasks → Type 0
WritesAt at tasks tasks' =
    (id : String) × (task : Task) × (at ≡ some id) × (tasks' ≡ put id task tasks)

-- An event writes the task that it is about, and no other.
abbrev Writes : Event → Tasks → Tasks → Type 0
Writes event tasks tasks' = (tasks' ≡ tasks) ⊎ WritesAt (subject event) tasks tasks'

place-WritesAt :
    (id : String) (r : Result Error Task) (tasks tasks' : Tasks)
    → place id r tasks ≡ ok tasks'
    → WritesAt (some id) tasks tasks'
place-WritesAt id (ok task) tasks tasks' h = (id, task, refl, ground (arith, h))
place-WritesAt id (raise e) tasks tasks' h = absurd (ground (arith, h))

write_task-WritesAt :
    (key : Result Error String) (change : String → Result Error Task) (tasks tasks' : Tasks)
    → write_task key change tasks ≡ ok tasks'
    → WritesAt (text_of key) tasks tasks'
write_task-WritesAt (ok id) change tasks tasks' h = place-WritesAt id (change id) tasks tasks' h
write_task-WritesAt (raise e) change tasks tasks' h = absurd (ground (arith, h))

ok_inj {ℓ} : {A : Type ℓ} {a b : A} → Path (Result Error A) (ok a) (ok b) → a ≡ b
ok_inj h = ground (arith, h)

-- The branches by the kind of the event.
module _ (tasks tasks' : Tasks) where
  abbrev Proves : Result Error Tasks → Option String → Type 0
  Proves r id = r ≡ ok tasks' → WritesAt id tasks tasks'

  chosen-Writes :
      (a b c : Bool) (x y z : Result Error Tasks) (i j k : Option String)
      → Proves x i
      → Proves y j
      → Proves z k
      → (if a then x else if b then y else if c then z else ok tasks) ≡ ok tasks'
      → (tasks' ≡ tasks)
        ⊎ WritesAt (if a then i else if b then j else if c then k else none) tasks tasks'
  chosen-Writes true b c x y z i j k p q r h = inr (p h)
  chosen-Writes false true c x y z i j k p q r h = inr (q h)
  chosen-Writes false false true x y z i j k p q r h = inr (r h)
  chosen-Writes false false false x y z i j k p q r h = inl (ground (arith, h))

-- The task of a key is still there, and as it was where no event of the list is about it.
abbrev Keeps : String → List Event → Tasks → Tasks → Type 0
Keeps id events old new =
    (task : Task)
    → get id old ≡ some task
    → (task' : Task) × (get id new ≡ some task')
      × (All (λ e. subject e ≢ some id) events → task' ≡ task)

put-Keeps :
    (id at : String) (task' : Task) (event : Event) (tasks tasks' : Tasks)
    → subject event ≡ some at
    → tasks' ≡ put at task' tasks
    → Keeps id (event ∷ []) tasks tasks'
put-Keeps id at task' event tasks tasks' s w task g =
    let found = ap (get id) w ∙ get-put id at task' tasks in
    elim (Bool-cases (at == id)) [
      | inl e ↦
          (task', found ∙ rw e, λ q. absurd (q.0 (s ∙ ap some ((text_key.eqb_iff at id).0 e))))
      | inr e ↦ (task, found ∙ rw e g, λ q. refl)
    ]

Writes-Keeps :
    (id : String) (event : Event) (tasks tasks' : Tasks)
    → Writes event tasks tasks'
    → Keeps id (event ∷ []) tasks tasks'
Writes-Keeps id event tasks tasks' (inl e) task g = (task, ap (get id) e ∙ g, λ q. refl)
Writes-Keeps id event tasks tasks' (inr (at, task', s, w)) task g =
    put-Keeps id at task' event tasks tasks' s w task g

abbrev pub tasks_of : Board → Tasks
tasks_of board = or_no_tasks board.tasks

Keeps-trans :
    (id : String) (event : Event) (events : List Event) (x y z : Tasks)
    → Keeps id (event ∷ []) x y
    → Keeps id events y z
    → Keeps id (event ∷ events) x z
Keeps-trans id event events x y z p q task g =
    let (task', g', same) = p task g in
    let (task'', g'', same') = q task' g' in
    (task'', g'', λ other. same' other.1 ∙ same (other.0, tt))

on_board-Keeps :
    (id : String) (event : Event) (board board' : Board) (r : Result Error Tasks)
    → ((tasks' : Tasks) → r ≡ ok tasks' → Keeps id (event ∷ []) (tasks_of board) tasks')
    → on_board board r ≡ ok board'
    → Keeps id (event ∷ []) (tasks_of board) (tasks_of board')
on_board-Keeps id event board board' (ok tasks) w h =
    subst (λ z. Keeps id (event ∷ []) (tasks_of board) (tasks_of z)) (ok_inj h) (w tasks refl)
on_board-Keeps id event board board' (raise e) w h = absurd (ground (arith, h))

-- A run that ends well passed through the board after the first event.
go_on-ok :
    (r : Result Error Board) (next : Board → Result Error Board) (board : Board)
    → go_on r next ≡ ok board
    → (mid : Board) × (r ≡ ok mid) × (next mid ≡ ok board)
go_on-ok (ok mid) next board h = (mid, refl, h)
go_on-ok (raise e) next board h = absurd (ground (arith, h))

saved-ok :
    (file : Snapshot) (r : Result Error Board) (board' : Board) (file' : Snapshot)
    → saved file r ≡ (ok board', file')
    → (r ≡ ok board') × (file' ≡ holds board')
saved-ok file (ok board) board' file' h = ground (arith, h)
saved-ok file (raise e) board' file' h = absurd (ground (arith, h))

module _ (lower : String → String) where
  project_event-Writes :
      (event : Event) (tasks tasks' : Tasks)
      → project_event lower event tasks ≡ ok tasks'
      → Writes event tasks tasks'
  unfolding project_event
  project_event-Writes event tasks tasks' h =
      let kind = get_or (text "") (get "kind" event) in
      chosen-Writes tasks tasks' (is_kind "task_status_changed" kind) (is_kind "status_update" kind)
        (is_kind "task_handoff" kind) (change_status event tasks) (update_legacy lower event tasks)
        (hand_off event tasks) (text_of (key_in (get "task_id" event))) (some (legacy_id event))
        (text_of (key_of (handoff_id event))) (write_task-WritesAt _ _ tasks tasks')
        (write_task-WritesAt (ok (legacy_id event))
          (λ id.
            legacy_status lower (either (get "status" event) (get "new_status" event))
              (found_or (legacy_task id) (get id tasks)))
          tasks tasks')
        (write_task-WritesAt _ _ tasks tasks') h

  project_on-Keeps :
      (id : String) (event : Event) (board board' : Board)
      → project_on lower event board ≡ ok board'
      → Keeps id (event ∷ []) (tasks_of board) (tasks_of board')
  project_on-Keeps id event board board' h =
      let tasks = tasks_of board in
      on_board-Keeps id event board board' (project_event lower event tasks)
        (λ tasks' e. Writes-Keeps id event tasks tasks' (project_event-Writes event tasks tasks' e))
        h

  project_events-Keeps :
      (id : String) (events : List Event) (board board' : Board)
      → project_events lower events board ≡ ok board'
      → Keeps id events (tasks_of board) (tasks_of board')
  unfolding project_events
  project_events-Keeps id [] board board' h =
      subst (λ z. Keeps id [] (tasks_of board) (tasks_of z)) (ok_inj h)
        (λ task g. (task, g, λ q. refl))
  project_events-Keeps id (event ∷ events) board board' h =
      let (mid, first, rest) =
        go_on-ok (project_on lower event board) (λ b. project_events lower events b) board' h in
      Keeps-trans id event events (tasks_of board) (tasks_of mid) (tasks_of board')
        (project_on-Keeps id event board mid first) (project_events-Keeps id events mid board' rest)

  -- A reconciliation that returns a board has written that board, and never deletes a task of the
  -- snapshot: each is still there, and as it was where none of the events is about it.
  pub reconcile_keeps_tasks :
      (id : String) (events : List Event) (board board' : Board) (file' : Snapshot) (task : Task)
      → reconcile_snapshot_from_events lower events (holds board) ≡ (ok board', file')
      → get id (tasks_of board) ≡ some task
      → (file' ≡ holds board')
        × (task' : Task) × (get id (tasks_of board') ≡ some task')
        × (All (λ e. subject e ≢ some id) events → task' ≡ task)
  unfolding reconcile_snapshot_from_events
  reconcile_keeps_tasks id events board board' file' task h g =
      let (r, written) =
        saved-ok (holds board) (project_events lower events board) board' file' h in
      let (task', at, same) = project_events-Keeps id events board board' r task g in
      (written, task', at, same)
