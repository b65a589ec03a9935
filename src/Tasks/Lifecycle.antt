-- ===== src/Tasks/Lifecycle.antt =====
-- What any sequence of `apply_transition` keeps of a task.
pub mod Closed
use mathlib.Core.Path.{subst}
use herdr_bridge.Prelude.{
  ◌≡◌, refl, sym, ap, ◌∙◌, Bool, true, false, ◌&&◌, Option, none, some, List, [], ◌∷◌, String, ◌==◌,
  text_key, ok, Bool-cases, inl, inr, arith,
}
use herdr_bridge.Tasks.Dict.{Dict, get, put, IsDict, or_else, get-join, get-put}
use herdr_bridge.Tasks.Value.{Value, null, text, is_given, Task}
use herdr_bridge.Tasks.Transition.{
  allowed_table, or_none_of, allowed_transitions, contains, check_allowed, check_transition,
  lacks_field, moved, apply_transition,
}

-- VALID_STATES
abbrev pub valid_states : List String
valid_states =
    "pending" ∷ "claimed" ∷ "in_progress" ∷ "blocked" ∷ "done" ∷ "failed" ∷ "cancelled" ∷ []

-- The tasks that successful transitions lead to. Their fields are those of a call: no name comes twice,
-- and none is `status`.
pub data Reaches (task : Task) : Task → Type 0 where
  start : Reaches task task
  step :
      {u v : Task} (new : String) (fields : Dict Value)
      → Reaches task u
      → IsDict fields
      → get "status" fields ≡ none
      → apply_transition u new fields ≡ ok v
      → Reaches task v

abbrev subset : List String → List String → Bool
subset [] ys = true
subset (x ∷ xs) ys = contains x ys && subset xs ys

contains-subset :
    (s : String) (xs ys : List String)
    → subset xs ys ≡ true
    → contains s xs ≡ true
    → contains s ys ≡ true
contains-subset s [] ys h c = ground (arith, c)
contains-subset s (x ∷ xs) ys h c = elim (Bool-cases (s == x)) [
  | inl e ↦ subst (λ z. contains z ys ≡ true) (sym ((text_key.eqb_iff s x).0 e)) (ground (arith, h))
  | inr e ↦ contains-subset s xs ys (ground (arith, h)) (ground (arith, c, e))
]

abbrev rows_in : Dict (List String) → List String → Bool
rows_in [] ys = true
rows_in ((k, xs) ∷ d) ys = subset xs ys && rows_in d ys

get-rows_in :
    (s new : String) (d : Dict (List String)) (ys : List String)
    → rows_in d ys ≡ true
    → contains new (or_none_of (get s d)) ≡ true
    → contains new ys ≡ true
unfolding get
get-rows_in s new [] ys h c = ground (arith, c)
get-rows_in s new ((k, xs) ∷ d) ys h c = elim (Bool-cases (k == s)) [
  | inl e ↦ contains-subset new xs ys (ground (arith, h)) (ground (arith, c, e))
  | inr e ↦ get-rows_in s new d ys (ground (arith, h)) (ground (arith, c, e))
]

allowed-valid :
    (s new : String)
    → contains new (allowed_transitions s) ≡ true
    → contains new valid_states ≡ true
unfolding allowed_transitions
allowed-valid s new h = get-rows_in s new allowed_table valid_states refl h

check_allowed-valid :
    (current : Value) (new : String)
    → check_allowed current new ≡ ok tt
    → contains new valid_states ≡ true
check_allowed-valid (text s) new h = allowed-valid s new (ground (arith, h))
check_allowed-valid _ new h = ground (arith, h)

check-valid :
    (current : Value) (new : String)
    → check_transition current new ≡ ok tt
    → contains new valid_states ≡ true
check-valid current new h = elim (Bool-cases (new == "cancelled")) [
  | inl e ↦
      subst (λ z. contains z valid_states ≡ true) (sym ((text_key.eqb_iff new "cancelled").0 e))
        refl
  | inr e ↦ check_allowed-valid current new (ground (arith, h, e))
]

-- A successful transition in parts.
abbrev Moves : Task → String → Dict Value → Task → Type 0
Moves task new fields u =
    (current : Value) × (get "status" task ≡ some current)
    × (check_transition current new ≡ ok tt)
    × (lacks_field new fields ≡ false)
    × (u ≡ moved task new fields)

apply_transition-Moves :
    (task : Task) (new : String) (fields : Dict Value) (u : Task)
    → apply_transition task new fields ≡ ok u
    → Moves task new fields u
unfolding apply_transition
apply_transition-Moves task new fields u h = ground (arith, h)

status-moved :
    (task : Task) (new : String) (fields : Dict Value)
    → IsDict fields
    → get "status" fields ≡ none
    → get "status" (moved task new fields) ≡ some (text new)
status-moved task new fields u h =
    get-join "status" (put "status" (text new) task) fields u
    ∙ rw h (get-put "status" "status" (text new) task)

given-or_else : (a b : Option Value) → is_given a ≡ true → is_given (or_else a b) ≡ true
given-or_else none b h = absurd (ground (arith, h))
given-or_else (some v) b h = h

given-moved :
    (k : String) (task : Task) (new : String) (fields : Dict Value)
    → IsDict fields
    → is_given (get k fields) ≡ true
    → is_given (get k (moved task new fields)) ≡ true
given-moved k task new fields u h =
    ap is_given (get-join k (put "status" (text new) task) fields u)
    ∙ given-or_else (get k fields) (get k (put "status" (text new) task)) h

lacks_field-moved :
    (task : Task) (new : String) (fields : Dict Value)
    → IsDict fields
    → lacks_field new fields ≡ false
    → lacks_field new (moved task new fields) ≡ false
lacks_field-moved task new fields u h = ground (
  arith,
  h,
  given-moved "blocked_reason" task new fields u,
  given-moved "dispatch_receipt" task new fields u,
)

abbrev name_of : Option Value → String
name_of (some (text s)) = s
name_of _ = ""

abbrev IsSound : Task → String → Type 0
IsSound u s = (contains s valid_states ≡ true) × (lacks_field s u ≡ false)

moved-IsSound :
    (task : Task) (new s : String) (fields : Dict Value) (u : Task)
    → IsDict fields
    → get "status" fields ≡ none
    → Moves task new fields u
    → get "status" u ≡ some (text s)
    → IsSound u s
moved-IsSound task new s fields u d n m e =
    let is_new =
      ap name_of
        (sym (status-moved task new fields d n) ∙ sym (ap (λ z. get "status" z) m.4) ∙ e) in
    subst (λ z. IsSound u z) is_new
      (
        check-valid m.0 new m.2,
        ap (λ z. lacks_field new z) m.4 ∙ lacks_field-moved task new fields d m.3,
      )

Reaches-IsSound :
    (task u : Task) (s : String)
    → get "status" task ≡ some (text "pending")
    → Reaches task u
    → get "status" u ≡ some (text s)
    → IsSound u s
Reaches-IsSound task u s p start h =
    subst (λ z. IsSound task z) (ap name_of (sym p ∙ h)) (refl, refl)
Reaches-IsSound task v s p (step {u} new fields r d n h) e =
    moved-IsSound u new s fields v d n (apply_transition-Moves u new fields v h) e

-- A task that started as "pending" has a status of VALID_STATES after any number of successful
-- transitions.
pub status-valid :
    (task u : Task) (s : String)
    → get "status" task ≡ some (text "pending")
    → Reaches task u
    → get "status" u ≡ some (text s)
    → contains s valid_states ≡ true
status-valid task u s p r h = (Reaches-IsSound task u s p r h).0

-- A task that started as "pending" and is "done" after any number of successful transitions, whose extra
-- fields have different names and do not include `status`, has a dispatch receipt that is not empty.
pub done_has_receipt :
    (task u : Task)
    → get "status" task ≡ some (text "pending")
    → Reaches task u
    → get "status" u ≡ some (text "done")
    → is_given (get "dispatch_receipt" u) ≡ true
done_has_receipt task u p r h = ground (arith, (Reaches-IsSound task u "done" p r h).1)

-- A task that started as "pending" and is "blocked" after any number of successful transitions has a
-- reason for it that is not empty.
pub blocked_has_reason :
    (task u : Task)
    → get "status" task ≡ some (text "pending")
    → Reaches task u
    → get "status" u ≡ some (text "blocked")
    → is_given (get "blocked_reason" u) ≡ true
blocked_has_reason task u p r h = ground (arith, (Reaches-IsSound task u "blocked" p r h).1)
