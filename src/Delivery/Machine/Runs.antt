-- ===== src/Delivery/Machine/Runs.antt =====
-- Sequences of calls of `update_delivery_state`, by any agents, one after the other.
use mathlib.Core.Path.{subst}
use herdr_bridge.Prelude.{
  ℕ, ◌≡◌, refl, sym, ap, ◌∙◌, Bool, true, false, Option, none, some, List, [], ◌∷◌, ◌==◌,
  triple_key, Result, ok, Bool-cases, inl, inr, ◌⊎◌, arith, ltb, Any, All,
}
use herdr_bridge.Table.{kept}
use herdr_bridge.Delivery.State.{
  State, init, same_iff, validate, Error, pong_received, side_report_received, completed, degraded,
  member,
}
use herdr_bridge.Delivery.Store.{
  Row, Rows, TaskKey, IsTable, default_ttl, read_state, state-written, read-write_self,
  read-write_state, write_state-IsTable, row_expiry,
}
use herdr_bridge.Delivery.Machine.{
  Turn, Update, Reply, state_of, is_duplicate, is_finished, update_delivery_state,
}
use herdr_bridge.Delivery.Machine.Updates.{
  follows_no_closed, validate_lem, IsQuiet, Branches, landed, update_delivery_state-Branches,
}

pub record Call : Type 0 where
  pub turn : Turn
  pub update : Update

-- The table after the calls; an error of one call does not stop the next caller.
abbrev pub run : List Call → Rows → Rows
run [] t = t
run (c ∷ cs) t = run cs (update_delivery_state c.turn c.update t).1

-- A call that is a report for the key.
abbrev pub Reports : TaskKey → Call → Type 0
Reports k c =
    (c.update.key ≡ k)
    × (member c.update.new_state (pong_received ∷ side_report_received ∷ []) ≡ true)

-- What a call leaves at a key: the row that was there, no row where it has expired, or the new state
-- where the call was for this key and the step was allowed.
abbrev Leaves : TaskKey → Call → Option Row → Option Row → Type 0
Leaves k c old new =
    (new ≡ old)
    ⊎ (new ≡ kept row_expiry c.turn.now old)
    ⊎ ((c.update.key ≡ k)
        × (is_duplicate (state_of old) c.update.new_state ≡ false)
        × (validate (state_of old) c.update.new_state ≡ ok tt)
        × (state_of new ≡ some c.update.new_state))

module _ (c : Call) (t : Rows) where
  abbrev table_of : Result Error Reply × Rows → Rows
  table_of result = result.1

  landed-Leaves :
      (k : TaskKey)
      → IsTable t
      → is_duplicate (state_of (read_state c.update.key t)) c.update.new_state ≡ false
      → validate (state_of (read_state c.update.key t)) c.update.new_state ≡ ok tt
      → Leaves k c (read_state k t) (read_state k (landed c.turn c.update t))
  landed-Leaves k h dup v =
      let u = c.update in
      let put = read-write_state c.turn.now default_ttl u.key u.new_state u.context u.correlation in
      elim (Bool-cases (u.key == k)) [
        | inl e ↦
            subst (λ j. Leaves j c (read_state j t) (read_state j (landed c.turn u t)))
              ((triple_key.eqb_iff u.key k).0 e)
              (inr (
                inr (
                  refl,
                  dup,
                  v,
                  ap state_of (
                        read-write_self c.turn.now default_ttl u.key u.new_state u.context
                          u.correlation t h)
                      ∙ ap some (
                          state-written c.turn.now default_ttl u.key u.new_state u.context
                            u.correlation (read_state u.key t)),
                )))
        | inr e ↦ inr (inl (put k t h ∙ rw e))
      ]

  Branches-Leaves :
      (k : TaskKey) (result : Result Error Reply × Rows)
      → IsTable t
      → Branches c.turn c.update t result
      → Leaves k c (read_state k t) (read_state k result.1) × IsTable result.1
  Branches-Leaves k result h (inl b) =
      (inl (ap (λ r. read_state k (table_of r)) b.4), subst (λ r. IsTable (table_of r)) (sym b.4) h)
  Branches-Leaves k result h (inr (inl b)) =
      (inl (ap (λ r. read_state k (table_of r)) b.1), subst (λ r. IsTable (table_of r)) (sym b.1) h)
  Branches-Leaves k result h (inr (inr b)) = (
    subst (λ r. Leaves k c (read_state k t) (read_state k (table_of r))) (sym b.1)
        (landed-Leaves k h
          (follows_no_closed (state_of (read_state c.update.key t)) c.update.new_state b.0)
          (validate_lem (state_of (read_state c.update.key t)) c.update.new_state ∙ rw b.0 refl)),
    subst (λ r. IsTable (table_of r)) (sym b.1)
        (write_state-IsTable c.turn.now default_ttl c.update.key c.update.new_state c.update.context
          c.update.correlation t h),
  )

  call-Leaves :
      (k : TaskKey)
      → IsQuiet c.turn
      → IsTable t
      → Leaves k c (read_state k t) (read_state k (update_delivery_state c.turn c.update t).1)
        × IsTable (update_delivery_state c.turn c.update t).1
  call-Leaves k q h =
      Branches-Leaves k (update_delivery_state c.turn c.update t) h
        (update_delivery_state-Branches c.turn c.update t q h)

-- The states that only a report can have led to.
abbrev needs_report : Option State → Bool
needs_report none = false
needs_report (some s) = member s (pong_received ∷ side_report_received ∷ completed ∷ degraded ∷ [])

-- A step of the table that enters them is a report.
enters_by_report :
    (old : Option State) (new : State)
    → validate old new ≡ ok tt
    → needs_report (some new) ≡ true
    → (needs_report old ≡ true) ⊎ (member new (pong_received ∷ side_report_received ∷ []) ≡ true)
unfolding validate
enters_by_report none new v n = ground (arith, v, n, same_iff new init)
enters_by_report (some pong_received) new v n = inl refl
enters_by_report (some side_report_received) new v n = inl refl
enters_by_report (some completed) new v n = inl refl
enters_by_report (some degraded) new v n = inl refl
enters_by_report (some s) new v n = ground arith

abbrev AreQuiet : List Call → Type 0
AreQuiet cs = All (λ c. IsQuiet c.turn) cs

kept_row :
    (now : ℕ) (r : Row) → ltb r.expires_at now ≡ false → kept row_expiry now (some r) ≡ some r
kept_row now r e = rw e

kept-needs_report :
    (now : ℕ) (old : Option Row)
    → needs_report (state_of (kept row_expiry now old)) ≡ true
    → needs_report (state_of old) ≡ true
kept-needs_report now none n = n
kept-needs_report now (some r) n = elim (Bool-cases (ltb r.expires_at now)) [
  | inl e ↦ absurd (ground (arith, n, e))
  | inr e ↦ sym (ap (λ o. needs_report (state_of o)) (kept_row now r e)) ∙ n
]

Leaves-needs_report :
    (k : TaskKey) (c : Call) (old new : Option Row)
    → Leaves k c old new
    → needs_report (state_of new) ≡ true
    → (needs_report (state_of old) ≡ true) ⊎ Reports k c
Leaves-needs_report k c old new (inl e) n = inl (sym (ap (λ r. needs_report (state_of r)) e) ∙ n)
Leaves-needs_report k c old new (inr (inl e)) n =
    inl (kept-needs_report c.turn.now old (sym (ap (λ r. needs_report (state_of r)) e) ∙ n))
Leaves-needs_report k c old new (inr (inr w)) n =
    elim (enters_by_report (state_of old) c.update.new_state w.2 (sym (ap needs_report w.3) ∙ n)) [
      | inl o ↦ inl o
      | inr m ↦ inr (w.0, m)
    ]

run-needs_report :
    (k : TaskKey) (cs : List Call) (t : Rows)
    → AreQuiet cs
    → IsTable t
    → needs_report (state_of (read_state k (run cs t))) ≡ true
    → (needs_report (state_of (read_state k t)) ≡ true) ⊎ Any (Reports k) cs
run-needs_report k [] t q h n = inl n
run-needs_report k (c ∷ cs) t q h n =
    let t' = (update_delivery_state c.turn c.update t).1 in
    let step = call-Leaves c t k q.0 h in
    elim (run-needs_report k cs t' q.1 step.1 n) [
      | inr a ↦ inr (inr a)
      | inl m ↦ elim (Leaves-needs_report k c (read_state k t) (read_state k t') step.0 m) [
        | inl o ↦ inl o
        | inr r ↦ inr (inl r)
      ]
    ]

-- However many agents call, one after the other, and whatever expires: a task that has no row at first
-- and stands in PONG_RECEIVED, SIDE_REPORT_RECEIVED, COMPLETED or DEGRADED at the end was reported on
-- by some call, for its own key, with PONG_RECEIVED or SIDE_REPORT_RECEIVED.
pub done_was_reported :
    (k : TaskKey) (cs : List Call) (t : Rows) (s : State)
    → AreQuiet cs
    → IsTable t
    → read_state k t ≡ none
    → state_of (read_state k (run cs t)) ≡ some s
    → member s (pong_received ∷ side_report_received ∷ completed ∷ degraded ∷ []) ≡ true
    → Any (Reports k) cs
done_was_reported k cs t s q h e f m = elim (run-needs_report k cs t q h (ap needs_report f ∙ m)) [
  | inr a ↦ a
  | inl n ↦ absurd (ground (arith, ap (λ r. needs_report (state_of r)) e, n))
]

finished_steps : (s new : State) → is_finished (some s) ≡ true → validate (some s) new ≡ ok tt → ⊥
unfolding validate
finished_steps s new f v = ground (arith, f, v)

Leaves-is_finished :
    (k : TaskKey) (c : Call) (r : Row) (new : Option Row)
    → is_finished (some r.state) ≡ true
    → ltb r.expires_at c.turn.now ≡ false
    → Leaves k c (some r) new
    → new ≡ some r
Leaves-is_finished k c r new f x (inl e) = e
Leaves-is_finished k c r new f x (inr (inl e)) = e ∙ rw x
Leaves-is_finished k c r new f x (inr (inr w)) =
    absurd (finished_steps r.state c.update.new_state f w.2)

-- A row in COMPLETED or DEGRADED stays as it is, in every column, through any calls that come one
-- after the other before it expires.
pub finished_stays :
    (k : TaskKey) (cs : List Call) (t : Rows) (r : Row)
    → AreQuiet cs
    → IsTable t
    → All (λ c. ltb r.expires_at c.turn.now ≡ false) cs
    → is_finished (some r.state) ≡ true
    → read_state k t ≡ some r
    → read_state k (run cs t) ≡ some r
finished_stays k [] t r q h x f e = e
finished_stays k (c ∷ cs) t r q h x f e =
    let t' = (update_delivery_state c.turn c.update t).1 in
    let step = call-Leaves c t k q.0 h in
    finished_stays k cs t' r q.1 step.1 x.1 f (
      Leaves-is_finished k c r (read_state k t') f x.0
        (subst (λ o. Leaves k c o (read_state k t')) e step.0))
