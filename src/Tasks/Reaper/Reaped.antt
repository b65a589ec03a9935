-- ===== src/Tasks/Reaper/Reaped.antt =====
-- What a scan for silent claims does to every task of the snapshot.
use mathlib.Core.Path.{subst}
use herdr_bridge.Prelude.{
  ℕ, suc, ◌≡◌, refl, sym, ap, ◌∙◌, true, false, Option, none, some, [], ◌∷◌, String, ◌==◌, text_key,
  Result, ok, raise, if◌then◌else◌, Bool-cases, Option-cases, inl, inr, All, All-map, All-zip,
  arith,
}
use herdr_bridge.Tasks.Dict.{get, IsDict, get-put}
use herdr_bridge.Tasks.Value.{Value, text, Task, Board, Snapshot, holds, Error}
use herdr_bridge.Tasks.Board.{Tasks, or_no_tasks}
use herdr_bridge.Tasks.Pool.{Log, logged, with_changed, unclaimed, unclaim}
use herdr_bridge.Tasks.Pool.Outcomes.{task_in, task_of, settle_unclaim-is_new}
use herdr_bridge.Tasks.Reaper.{
  Scan, is_due, unclaim_id, go_on, reap_tasks, scan_and_reap_expired_claims,
}
use herdr_bridge.Tasks.Reaper.Abandoned.{is_abandoned, due-is_abandoned}

-- An unclaim of a task that is there.
pub unclaim_present :
    (id agent : String) (log : Log) (file : Snapshot) (old : Task)
    → task_in id file ≡ some old
    → (i : String)
    → task_in i (unclaim id agent log file).1
      ≡ (if id == i then some (unclaimed old) else task_in i file)
unfolding unclaim
unclaim_present id agent log (holds board) old h i = elim (Option-cases board.tasks) [
  | inl e ↦ absurd (ground (arith, sym (ap (task_of id) e) ∙ h))
  | inr (tasks, e) ↦
      let new = with_changed board tasks id (unclaimed old) in
      let there : get id tasks ≡ some old = sym (ap (task_of id) e) ∙ h in
      rw e (
        rw there (
          ap (task_in i) (settle_unclaim-is_new new (logged log))
          ∙ get-put i id (unclaimed old) tasks))
]
unclaim_present id agent log _ old h i = absurd (ground (arith, h))

-- What a task is after the scan: `read` as the scan read it, `now` as it is.
abbrev pub reaped : Scan → Option Task → Option Task → Option Task
reaped scan none now = now
reaped scan (some task) now = if is_abandoned scan task then some (unclaimed task) else now

-- The scan runs alone, and each task holds its own id.
abbrev pub IsAlone : Scan → Type 0
IsAlone scan = (task : Task) (file : Snapshot) → scan.others task file ≡ file

abbrev pub HasIds : Tasks → Type 0
HasIds tasks = All (λ t. get "task_id" t.1 ≡ some (text t.0)) tasks

abbrev AreIn : Snapshot → Tasks → Type 0
AreIn file tasks = All (λ t. task_in t.0 file ≡ some t.1) tasks

abbrev pub AreOther : String → Tasks → Type 0
AreOther id tasks = All (λ t. (id == t.0) ≡ false) tasks

get-AreOther : (id : String) (tasks : Tasks) → get id tasks ≡ none → AreOther id tasks
unfolding get
get-AreOther id [] h = tt
get-AreOther id ((j, task) ∷ tasks) h = (
  ground (arith, h, text_key.eqb_iff id j, text_key.eqb_iff j id),
  get-AreOther id tasks (ground (arith, h)),
)

-- The scan goes on from a task that has an id.
pub go_on_lem :
    (i : String) (there : Option Task) (id : Option Value) (v : Value)
    → id ≡ some v
    → (r : Result Error (Unit {0})) (n : ℕ) (next : ℕ → Result Error ℕ × Snapshot) (file : Snapshot)
    → ((m : ℕ) → task_in i (next m).1 ≡ there)
    → task_in i (go_on id r n next file).1 ≡ there
go_on_lem i there none v e r n next file h = absurd (ground (arith, e))
go_on_lem i there (some _) v e (ok _) n next file h = h (suc n)
go_on_lem i there (some _) v e (raise _) n next file h = h n

-- A dictionary has each of its members under its key.
IsDict-get : (tasks : Tasks) → IsDict tasks → All (λ t. get t.0 tasks ≡ some t.1) tasks
unfolding get
IsDict-get [] u = tt
IsDict-get ((id, task) ∷ tasks) u = (
  rw ((text_key.eqb_iff id id).1 refl) refl,
  All-zip {P = λ x. get x.0 tasks ≡ some x.1} {Q = λ x. (id == x.0) ≡ false}
      {R = λ x. get x.0 ((id, task) ∷ tasks) ≡ some x.1} tasks (λ x a b. rw b a)
      (IsDict-get tasks u.1) (get-AreOther id tasks u.0),
)

module _ (scan : Scan) where
  due-reaped :
      (id i : String) (task : Task) (tasks : Tasks) (now now' : Option Task)
      → is_abandoned scan task ≡ true
      → get id tasks ≡ none
      → now' ≡ (if id == i then some (unclaimed task) else now)
      → reaped scan (get i tasks) now'
        ≡ reaped scan (if id == i then some task else get i tasks) now
  due-reaped id i task tasks now now' d g w = elim (Bool-cases (id == i)) [
    | inl e ↦
        let gone : get i tasks ≡ none =
          subst (λ z. get z tasks ≡ none) ((text_key.eqb_iff id i).0 e) g in
        rw e (rw gone (rw d (w ∙ rw e refl)))
    | inr e ↦ let same : now' ≡ now = w ∙ rw e refl in rw e (ap (reaped scan (get i tasks)) same)
  ]

  spared-reaped :
      (id i : String) (task : Task) (tasks : Tasks) (file : Snapshot)
      → is_abandoned scan task ≡ false
      → get id tasks ≡ none
      → reaped scan (get i tasks) (task_in i file)
        ≡ reaped scan (if id == i then some task else get i tasks) (task_in i file)
  spared-reaped id i task tasks file d g = elim (Bool-cases (id == i)) [
    | inl e ↦
        let gone : get i tasks ≡ none =
          subst (λ z. get z tasks ≡ none) ((text_key.eqb_iff id i).0 e) g in
        rw e (rw gone (rw d refl))
    | inr e ↦ rw e refl
  ]

  module _ (alone : IsAlone scan) where
    unclaim_id_lem :
        (id : String) (task : Task) (file : Snapshot)
        → get "task_id" task ≡ some (text id)
        → task_in id file ≡ some task
        → (i : String)
        → task_in i (unclaim_id (scan.log task) (get "task_id" task) (scan.others task file)).1
          ≡ (if id == i then some (unclaimed task) else task_in i file)
    unclaim_id_lem id task file t h i =
        rw (alone task file) (rw t (unclaim_present id "unknown" (scan.log task) file task h i))

    reap_tasks-reaped :
        (tasks : Tasks) (n : ℕ) (file : Snapshot)
        → HasIds tasks
        → IsDict tasks
        → AreIn file tasks
        → (i : String)
        → task_in i (reap_tasks scan tasks n file).1 ≡ reaped scan (get i tasks) (task_in i file)
    unfolding reap_tasks get
    reap_tasks-reaped [] n file t u h i = refl
    reap_tasks-reaped ((id, task) ∷ tasks) n file t u h i =
        let done = unclaim_id (scan.log task) (get "task_id" task) (scan.others task file) in
        let step = unclaim_id_lem id task file t.0 h.0 in
        let stay =
          All-zip {P = λ x. task_in x.0 file ≡ some x.1} {Q = λ x. (id == x.0) ≡ false}
            {R = λ x. task_in x.0 done.1 ≡ some x.1} tasks (λ x a b. step x.0 ∙ rw b a) h.1
            (get-AreOther id tasks u.0) in
        elim (Bool-cases (is_due scan task)) [
          | inl d ↦ rw d (
              go_on_lem i
                (reaped scan (if id == i then some task else get i tasks) (task_in i file))
                (get "task_id" task) (text id) t.0 done.0 n (λ m. reap_tasks scan tasks m done.1)
                done.1
                (λ m.
                  reap_tasks-reaped tasks m done.1 t.1 u.1 stay i
                  ∙ due-reaped id i task tasks (task_in i file) (task_in i done.1)
                      (sym (due-is_abandoned scan task) ∙ d) u.0 (step i)))
          | inr d ↦ rw d (
              reap_tasks-reaped tasks n file t.1 u.1 h.1 i
              ∙ spared-reaped id i task tasks file (sym (due-is_abandoned scan task) ∙ d) u.0)
        ]

    -- A scan that no other process interrupts, over a board whose tasks hold their own ids, gives back
    -- exactly the tasks that are claimed and whose last heartbeat is more than ninety seconds old, and
    -- leaves every other task as it was, those included that never had a heartbeat.
    pub scan-reaped :
        (board : Board) (tasks : Tasks)
        → board.tasks ≡ some tasks
        → HasIds tasks
        → IsDict tasks
        → (i : String)
        → task_in i (scan_and_reap_expired_claims scan (holds board)).1
          ≡ reaped scan (task_in i (holds board)) (task_in i (holds board))
    unfolding scan_and_reap_expired_claims
    scan-reaped board tasks b t u i =
        let here : AreIn (holds board) tasks =
          All-map {P = λ x. get x.0 tasks ≡ some x.1}
            {Q = λ x. task_in x.0 (holds board) ≡ some x.1} tasks (λ x a. ap (task_of x.0) b ∙ a)
            (IsDict-get tasks u) in
        ap (λ o. task_in i (reap_tasks scan (or_no_tasks o) 0 (holds board)).1) b
        ∙ (reap_tasks-reaped tasks 0 (holds board) t u here i
            ∙ ap (λ o. reaped scan o (task_in i (holds board))) (sym (ap (task_of i) b)))
