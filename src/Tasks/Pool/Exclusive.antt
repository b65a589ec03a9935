-- ===== src/Tasks/Pool/Exclusive.antt =====
-- Between a claim and the unclaim of a task, no other agent gets it.
use mathlib.Core.Path.{subst}
use herdr_bridge.Prelude.{
  ◌≡◌, ◌≢◌, refl, sym, ap, ◌∙◌, Bool, true, false, Option, none, some, List, [], ◌∷◌, String, ◌==◌,
  text_key, Result, ok, Bool-cases, inl, inr, All, arith,
}
use herdr_bridge.Tasks.Dict.{get, put, get-put}
use herdr_bridge.Tasks.Value.{Value, text, Task, Snapshot, Error}
use herdr_bridge.Tasks.Pool.{Log, claim, unclaim, heartbeat, claimed}
use herdr_bridge.Tasks.Pool.Outcomes.{
  task_in, Changed, Claims, Beats, Releases, Touches, claim-Touches, unclaim-Touches,
  heartbeat-Touches, claim-ClaimOutcome,
}

-- A call of an agent on the pool.
pub data Operation : Type 0 where
  claims : String → String → String → Log → Operation
  unclaims : String → String → Log → Operation
  beats : String → String → String → Operation

abbrev pub run_one : Operation → Snapshot → Snapshot
run_one (claims id agent now log) file = (claim id agent now log file).1
run_one (unclaims id agent log) file = (unclaim id agent log file).1
run_one (beats id agent now) file = (heartbeat id agent now file).1

abbrev pub run : List Operation → Snapshot → Snapshot
run [] file = file
run (o ∷ os) file = run os (run_one o file)

abbrev pub releases : String → Operation → Bool
releases id (unclaims j agent log) = j == id
releases id _ = false

abbrev pub IsHeld : String → String → Snapshot → Type 0
IsHeld id agent file =
    (task : Task) × (task_in id file ≡ some task)
    × (get "status" task ≡ some (text "claimed"))
    × (get "claimed_by" task ≡ some (text agent))

abbrev name_of : Option Value → String
name_of (some (text s)) = s
name_of _ = ""

abbrev or_nothing : Option Task → Task
or_nothing none = []
or_nothing (some task) = task

same_task : {a b : Task} → some a ≡ some b → a ≡ b
same_task e = ap or_nothing e

-- A change keeps the claim if it keeps it where it is about this task.
Changed-IsHeld :
    (id agent j : String) (Rel : Task → Task → Type 0) (file file' : Snapshot)
    → ((j == id) ≡ true
        → (old new : Task) → Rel old new
        → get "status" old ≡ some (text "claimed")
        → get "claimed_by" old ≡ some (text agent)
        → (get "status" new ≡ some (text "claimed")) × (get "claimed_by" new ≡ some (text agent)))
    → Changed j Rel file file'
    → IsHeld id agent file
    → IsHeld id agent file'
Changed-IsHeld id agent j Rel file file' keep (old, new, at, r, all) (task, h, s, c) =
    elim (Bool-cases (j == id)) [
      | inl e ↦
          let same : task ≡ old =
            same_task
              (sym h ∙ subst (λ z. task_in z file ≡ some old) ((text_key.eqb_iff j id).0 e) at) in
          let kept =
            keep e old new r (subst (λ z. get "status" z ≡ some (text "claimed")) same s)
              (subst (λ z. get "claimed_by" z ≡ some (text agent)) same c) in
          (new, all id ∙ rw e, kept.0, kept.1)
      | inr e ↦ (task, all id ∙ rw e h, s, c)
    ]

Touches-IsHeld {ℓ} :
    {A : Type ℓ} (id agent j : String) (Rel : Task → Task → Type 0) (file : Snapshot)
    (r : Result Error A × Snapshot)
    → ((j == id) ≡ true
        → (old new : Task) → Rel old new
        → get "status" old ≡ some (text "claimed")
        → get "claimed_by" old ≡ some (text agent)
        → (get "status" new ≡ some (text "claimed")) × (get "claimed_by" new ≡ some (text agent)))
    → Touches j Rel file r
    → IsHeld id agent file
    → IsHeld id agent r.1
Touches-IsHeld id agent j Rel file r keep (inl e) h = subst (IsHeld id agent) (sym e) h
Touches-IsHeld id agent j Rel file r keep (inr c) h =
    Changed-IsHeld id agent j Rel file r.1 keep c h

pending_is_claimed : (o : Option Value) → o ≡ some (text "pending") → o ≡ some (text "claimed") → ⊥
pending_is_claimed o p c = absurd (ground (arith, ap (λ z. name_of z == "pending") (sym p ∙ c)))

operation-IsHeld :
    (id agent : String) (o : Operation) (file : Snapshot)
    → releases id o ≡ false
    → IsHeld id agent file
    → IsHeld id agent (run_one o file)
operation-IsHeld id agent (claims j b now log) file n h =
    Touches-IsHeld id agent j (Claims b now) file (claim j b now log file)
      (λ e old new r s c. absurd (pending_is_claimed (get "status" old) r.0 s))
      (claim-Touches j b now log file) h
operation-IsHeld id agent (unclaims j b log) file n h =
    Touches-IsHeld id agent j Releases file (unclaim j b log file)
      (λ e old new r s c. absurd (ground (arith, n, e))) (unclaim-Touches j b log file) h
operation-IsHeld id agent (beats j b now) file n h =
    Touches-IsHeld id agent j (Beats b now) file (heartbeat j b now file)
      (λ e old new r s c. (
        ap (get "status") r.1 ∙ (get-put "status" "heartbeat_ts" (text now) old ∙ s),
        ap (get "claimed_by") r.1 ∙ (get-put "claimed_by" "heartbeat_ts" (text now) old ∙ c),
      ))
      (heartbeat-Touches j b now file) h

run-IsHeld :
    (id agent : String) (os : List Operation) (file : Snapshot)
    → All (λ o. releases id o ≡ false) os
    → IsHeld id agent file
    → IsHeld id agent (run os file)
run-IsHeld id agent [] file n h = h
run-IsHeld id agent (o ∷ os) file n h =
    run-IsHeld id agent os (run_one o file) n.1 (operation-IsHeld id agent o file n.0 h)

claimed-status :
    (agent now : String) (old : Task)
    → (get "status" (claimed agent now old) ≡ some (text "claimed"))
      × (get "claimed_by" (claimed agent now old) ≡ some (text agent))
claimed-status agent now old = (
  get-put "status" "claimed_at" (text now)
        (put "claimed_by" (text agent) (put "status" (text "claimed") old))
      ∙ (get-put "status" "claimed_by" (text agent) (put "status" (text "claimed") old)
          ∙ get-put "status" "status" (text "claimed") old),
  get-put "claimed_by" "claimed_at" (text now)
        (put "claimed_by" (text agent) (put "status" (text "claimed") old))
      ∙ get-put "claimed_by" "claimed_by" (text agent) (put "status" (text "claimed") old),
)

-- A claim that returned True.
claimed-IsHeld :
    (id agent now : String) (log : Log) (file : Snapshot)
    → (claim id agent now log file).0 ≡ ok true
    → IsHeld id agent (claim id agent now log file).1
claimed-IsHeld id agent now log file h = elim (claim-ClaimOutcome id agent now log file) [
  | inl (t, (old, new, at, r, all)) ↦ (
    new,
    all id ∙ rw ((text_key.eqb_iff id id).1 refl),
    ap (get "status") r.1 ∙ (claimed-status agent now old).0,
    ap (get "claimed_by") r.1 ∙ (claimed-status agent now old).1,
  )
  | inr (inl a) ↦ absurd (ground (arith, h, a.0))
  | inr (inr a) ↦ absurd (ground (arith, h, a.1))
]

held_is_refused :
    (id agent b now : String) (log : Log) (file : Snapshot)
    → IsHeld id agent file
    → (claim id b now log file).0 ≢ ok true
held_is_refused id agent b now log file (task, at, s, c) h =
    elim (claim-ClaimOutcome id b now log file) [
      | inl (t, (old, new, at', r, all)) ↦
          pending_is_claimed (get "status" old) r.0
            (subst (λ z. get "status" z ≡ some (text "claimed")) (same_task (sym at ∙ at')) s)
      | inr (inl a) ↦ absurd (ground (arith, h, a.0))
      | inr (inr a) ↦ absurd (ground (arith, h, a.1))
    ]

-- After a claim has returned True, any agents may claim, release and beat whatever they like: as long
-- as no unclaim names this task, it stays claimed by that agent and no claim of it returns True.
pub claim_is_exclusive :
    (id agent now : String) (log : Log) (file : Snapshot) (os : List Operation) (b now' : String)
    (log' : Log)
    → (claim id agent now log file).0 ≡ ok true
    → All (λ o. releases id o ≡ false) os
    → IsHeld id agent (run os (claim id agent now log file).1)
      × ((claim id b now' log' (run os (claim id agent now log file).1)).0 ≢ ok true)
claim_is_exclusive id agent now log file os b now' log' h n =
    let held =
      run-IsHeld id agent os (claim id agent now log file).1 n
        (claimed-IsHeld id agent now log file h) in
    (held, held_is_refused id agent b now' log' (run os (claim id agent now log file).1) held)
