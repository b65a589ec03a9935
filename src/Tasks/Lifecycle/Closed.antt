-- ===== src/Tasks/Lifecycle/Closed.antt =====
-- The states that a task does not leave again.
use mathlib.Core.Path.{subst}
use herdr_bridge.Prelude.{
  ◌≡◌, sym, ap, ◌∙◌, true, Option, none, some, List, [], ◌∷◌, String, ◌==◌, text_key, ok,
  Bool-cases, inl, inr, arith,
}
use herdr_bridge.Tasks.Dict.{get}
use herdr_bridge.Tasks.Value.{Value, null, text, Task}
use herdr_bridge.Tasks.Transition.{allowed_transitions, contains, check_transition}
use herdr_bridge.Tasks.Lifecycle.{Reaches, start, step, apply_transition-Moves, status-moved}

abbrev pub closed_states : List String
closed_states = "done" ∷ "failed" ∷ "cancelled" ∷ []

-- Where a state leads to closed states only.
abbrev Keeps : String → Type 0
Keeps s =
    (new : String) → contains new (allowed_transitions s) ≡ true → contains new closed_states ≡ true

done-Keeps : Keeps "done"
unfolding allowed_transitions get
done-Keeps new h = absurd (ground (arith, h))

failed-Keeps : Keeps "failed"
unfolding allowed_transitions get
failed-Keeps new h = ground (arith, h)

cancelled-Keeps : Keeps "cancelled"
unfolding allowed_transitions get
cancelled-Keeps new h = absurd (ground (arith, h))

equal-Keeps : (s k : String) → (s == k) ≡ true → Keeps k → Keeps s
equal-Keeps s k e h = subst Keeps (sym ((text_key.eqb_iff s k).0 e)) h

closed-Keeps : (s : String) → contains s closed_states ≡ true → Keeps s
closed-Keeps s c = elim (Bool-cases (s == "done")) [
  | inl e ↦ equal-Keeps s "done" e done-Keeps
  | inr e ↦ elim (Bool-cases (s == "failed")) [
    | inl f ↦ equal-Keeps s "failed" f failed-Keeps
    | inr f ↦ equal-Keeps s "cancelled" (ground (arith, c, e, f)) cancelled-Keeps
  ]
]

abbrev value_of : Option Value → Value
value_of none = null
value_of (some v) = v

value_in : {v w : Value} → some v ≡ some w → v ≡ w
value_in e = ap value_of e

closed_check :
    (s new : String)
    → contains s closed_states ≡ true
    → check_transition (text s) new ≡ ok tt
    → contains new closed_states ≡ true
closed_check s new c h = elim (Bool-cases (new == "cancelled")) [
  | inl e ↦ ground (arith, e)
  | inr e ↦ closed-Keeps s c new (ground (arith, h, e))
]

-- A task that is done, failed or cancelled never leaves these three states, whatever transitions follow,
-- as long as their extra fields have different names and do not include `status`.
pub closed_stays :
    (task u : Task) (s : String)
    → get "status" task ≡ some (text s)
    → contains s closed_states ≡ true
    → Reaches task u
    → (s' : String) × (get "status" u ≡ some (text s')) × (contains s' closed_states ≡ true)
closed_stays task u s h c start = (s, h, c)
closed_stays task v s h c (step {u} new fields r d n a) =
    let (s', at, closed) = closed_stays task u s h c r in
    let m = apply_transition-Moves u new fields v a in
    (
      new,
      ap (λ z. get "status" z) m.4 ∙ status-moved u new fields d n,
      closed_check s' new closed
          (subst (λ z. check_transition z new ≡ ok tt) (value_in (sym m.1 ∙ at)) m.2),
    )
