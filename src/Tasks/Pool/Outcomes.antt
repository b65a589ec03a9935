-- ===== src/Tasks/Pool/Outcomes.antt =====
-- The outcomes of a claim, an unclaim and a heartbeat, as seen through the tasks of the snapshot.
use mathlib.Core.Path.{subst}
use herdr_bridge.Prelude.{
  ◌≡◌, refl, sym, ap, ◌∙◌, Bool, true, false, Option, none, some, String, ◌==◌, text_key, Result,
  ok, raise, if◌then◌else◌, Bool-cases, Option-cases, inl, inr, ◌⊎◌, arith,
}
use herdr_bridge.Tasks.Dict.{get, put, get-put}
use herdr_bridge.Tasks.Value.{
  Value, text, Task, Board, Snapshot, missing, corrupt, holds, Error, key_error, file_not_found,
  json_decode_error,
}
use herdr_bridge.Tasks.Board.{Tasks}
use herdr_bridge.Tasks.Pool.{
  Log, logged, with_task, with_changed, is_text, is_log_error, claimed, settle_claim, claim_status,
  claim_task, claim, unclaimed, settle_unclaim, unclaim_task, unclaim, is_claimed_by, beat_task,
  heartbeat,
}

abbrev pub task_of : String → Option Tasks → Option Task
task_of id none = none
task_of id (some tasks) = get id tasks

-- The task that the snapshot has under an id.
abbrev pub task_in : String → Snapshot → Option Task
task_in id (holds board) = task_of id board.tasks
task_in id _ = none

-- One task was there and was changed, and every other is what it was.
abbrev pub Changed : String → (Task → Task → Type 0) → Snapshot → Snapshot → Type 0
Changed id Rel file file' =
    (old : Task) × (new : Task) × (task_in id file ≡ some old)
    × Rel old new
    × ((i : String) → task_in i file' ≡ (if id == i then some new else task_in i file))

with_changed-Changed :
    (id : String) (Rel : Task → Task → Type 0) (board : Board) (tasks : Tasks) (old new : Task)
    → board.tasks ≡ some tasks
    → get id tasks ≡ some old
    → Rel old new
    → Changed id Rel (holds board) (holds (with_changed board tasks id new))
with_changed-Changed id Rel board tasks old new b g r = (
  old,
  new,
  ap (task_of id) b ∙ g,
  r,
  λ i. get-put i id new tasks ∙ ap (λ z. if id == i then some new else z) (sym (ap (task_of i) b)),
)

-- A property of `with_task` that holds where it raises and where it goes on.
with_task-holds {ℓ} :
    {A : Type ℓ} (id : String) (file : Snapshot)
    (step : Board → Tasks → Option Task → Result Error A × Snapshot)
    (Q : Result Error A × Snapshot → Type 0)
    → ((e : Error) → Q (raise e, file))
    → ((board : Board) (tasks : Tasks)
        → file ≡ holds board
        → board.tasks ≡ some tasks
        → Q (step board tasks (get id tasks)))
    → Q (with_task id file step)
with_task-holds id missing step Q r g = r file_not_found
with_task-holds id corrupt step Q r g = r json_decode_error
with_task-holds id (holds board) step Q r g = elim (Option-cases board.tasks) [
  | inl e ↦ rw e (r key_error)
  | inr (tasks, e) ↦ rw e (g board tasks refl e)
]

abbrev pub Claims : String → String → Task → Task → Type 0
Claims agent now old new =
    (get "status" old ≡ some (text "pending")) × (new ≡ claimed agent now old)

abbrev is_pending : Option Value → Bool
is_pending none = false
is_pending (some v) = is_text "pending" v

abbrev pub is_free : Option Task → Bool
is_free none = false
is_free (some task) = is_pending (get "status" task)

-- A claim that returned True, that returned False, or that raised.
abbrev pub ClaimOutcome :
    String → String → String → Snapshot → Result Error Bool × Snapshot → Type 0
ClaimOutcome id agent now file r =
    ((r.0 ≡ ok true) × Changed id (Claims agent now) file r.1)
    ⊎ ((r.0 ≡ ok false) × (r.1 ≡ file) × (is_free (task_in id file) ≡ false))
    ⊎ ((e : Error) × (r.0 ≡ raise e)
        × ((r.1 ≡ file) ⊎ ((is_log_error e ≡ false) × Changed id (Claims agent now) file r.1)))

is_text-text : (name : String) (v : Value) → is_text name v ≡ true → v ≡ text name
is_text-text name (text s) h = ap text ((text_key.eqb_iff s name).0 h)
is_text-text name _ h = absurd (ground (arith, h))

module _ (id agent now : String) (log : Log) (board : Board) (tasks : Tasks)
    (b : board.tasks ≡ some tasks) where
  settle_claim-ClaimOutcome :
      (old : Task) (result : Result Error (Unit {0}))
      → get id tasks ≡ some old
      → get "status" old ≡ some (text "pending")
      → ClaimOutcome id agent now
          (holds board)
          (settle_claim board (with_changed board tasks id (claimed agent now old)) result)
  settle_claim-ClaimOutcome old (ok _) g p = inl (
    refl,
    with_changed-Changed id (Claims agent now) board tasks old (claimed agent now old) b g
        (p, refl),
  )
  settle_claim-ClaimOutcome old (raise e) g p = elim (Bool-cases (is_log_error e)) [
    | inl l ↦ rw l (inr (inr (e, refl, inl refl)))
    | inr l ↦ rw l (
        inr (
          inr (
            e,
            refl,
            inr (
              l,
              with_changed-Changed id (Claims agent now) board tasks old (claimed agent now old) b g
                  (p, refl),
            ),
          )))
  ]

  claim_status-ClaimOutcome :
      (old : Task) (v : Option Value)
      → get id tasks ≡ some old
      → get "status" old ≡ v
      → ClaimOutcome id agent now (holds board) (claim_status id agent now log board tasks old v)
  claim_status-ClaimOutcome old none g p = inr (inr (key_error, refl, inl refl))
  claim_status-ClaimOutcome old (some v) g p = elim (Bool-cases (is_text "pending" v)) [
    | inl e ↦
        rw e
          (settle_claim-ClaimOutcome old (logged log) g (p ∙ ap some (is_text-text "pending" v e)))
    | inr e ↦
        rw e (inr (inl (refl, refl, ap is_free (ap (task_of id) b ∙ g) ∙ (ap is_pending p ∙ e))))
  ]

  claim_task-ClaimOutcome :
      (o : Option Task)
      → get id tasks ≡ o
      → ClaimOutcome id agent now (holds board) (claim_task id agent now log board tasks o)
  claim_task-ClaimOutcome none g = inr (inl (refl, refl, ap is_free (ap (task_of id) b ∙ g)))
  claim_task-ClaimOutcome (some old) g = claim_status-ClaimOutcome old (get "status" old) g refl

pub claim-ClaimOutcome :
    (id agent now : String) (log : Log) (file : Snapshot)
    → ClaimOutcome id agent now file (claim id agent now log file)
unfolding claim
claim-ClaimOutcome id agent now log file =
    with_task-holds id file (claim_task id agent now log) (ClaimOutcome id agent now file)
      (λ e. inr (inr (e, refl, inl refl)))
      (λ board tasks f b.
        subst
          (λ z.
            ClaimOutcome id agent now z (claim_task id agent now log board tasks (get id tasks)))
          (sym f) (claim_task-ClaimOutcome id agent now log board tasks b (get id tasks) refl))

-- An operation on one task left the snapshot alone or changed that task.
abbrev pub Touches {ℓ} :
    {A : Type ℓ} → String → (Task → Task → Type 0) → Snapshot → Result Error A × Snapshot → Type 0
Touches id Rel file r = (r.1 ≡ file) ⊎ Changed id Rel file r.1

abbrev pub Releases : Task → Task → Type 0
Releases old new = new ≡ unclaimed old

abbrev pub Beats : String → String → Task → Task → Type 0
Beats agent now old new =
    (is_claimed_by agent (get "claimed_by" old) ≡ true) × (new ≡ put "heartbeat_ts" (text now) old)

pub settle_unclaim-is_new :
    (new : Board) (result : Result Error (Unit {0})) → (settle_unclaim new result).1 ≡ holds new
settle_unclaim-is_new new (ok _) = refl
settle_unclaim-is_new new (raise e) = elim (Bool-cases (is_log_error e)) [
  | inl l ↦ rw l refl
  | inr l ↦ rw l refl
]

module _ (board : Board) (tasks : Tasks) (b : board.tasks ≡ some tasks) where
  unclaim_task-Touches :
      (id : String) (log : Log) (o : Option Task)
      → get id tasks ≡ o
      → Touches id Releases (holds board) (unclaim_task id log board tasks o)
  unclaim_task-Touches id log none g = inl refl
  unclaim_task-Touches id log (some old) g = inr (
      subst (Changed id Releases (holds board))
        (sym (settle_unclaim-is_new (with_changed board tasks id (unclaimed old)) (logged log)))
        (with_changed-Changed id Releases board tasks old (unclaimed old) b g refl))

  beat_task-Touches :
      (id agent now : String) (o : Option Task)
      → get id tasks ≡ o
      → Touches id (Beats agent now) (holds board) (beat_task id agent now board tasks o)
  beat_task-Touches id agent now none g = inl refl
  beat_task-Touches id agent now (some old) g =
      elim (Bool-cases (is_claimed_by agent (get "claimed_by" old))) [
        | inl e ↦ rw e (
            inr (
              with_changed-Changed id (Beats agent now) board tasks old
                (put "heartbeat_ts" (text now) old) b g (e, refl)))
        | inr e ↦ rw e (inl refl)
      ]

pub unclaim-Touches :
    (id agent : String) (log : Log) (file : Snapshot)
    → Touches id Releases file (unclaim id agent log file)
unfolding unclaim
unclaim-Touches id agent log file =
    with_task-holds id file (unclaim_task id log) (Touches id Releases file) (λ e. inl refl)
      (λ board tasks f b.
        subst (λ z. Touches id Releases z (unclaim_task id log board tasks (get id tasks))) (sym f)
          (unclaim_task-Touches board tasks b id log (get id tasks) refl))

pub heartbeat-Touches :
    (id agent now : String) (file : Snapshot)
    → Touches id (Beats agent now) file (heartbeat id agent now file)
unfolding heartbeat
heartbeat-Touches id agent now file =
    with_task-holds id file (beat_task id agent now) (Touches id (Beats agent now) file)
      (λ e. inl refl)
      (λ board tasks f b.
        subst
          (λ z. Touches id (Beats agent now) z (beat_task id agent now board tasks (get id tasks)))
          (sym f) (beat_task-Touches board tasks b id agent now (get id tasks) refl))

-- A claim, too, leaves the snapshot alone or changes the task.
pub claim-Touches :
    (id agent now : String) (log : Log) (file : Snapshot)
    → Touches id (Claims agent now) file (claim id agent now log file)
claim-Touches id agent now log file = elim (claim-ClaimOutcome id agent now log file) [
  | inl a ↦ inr a.1
  | inr (inl a) ↦ inl a.1
  | inr (inr a) ↦ elim a.2 [ inl e ↦ inl e | inr c ↦ inr c.1 ]
]
