-- ===== src/Signal/Outbound/Attention.antt =====
-- `check_needs_attention`.
use herdr_bridge.Prelude.{
  ℕ, ◌≡◌, refl, ◌∙◌, Bool-cases, Bool, true, false, Option, none, some, String, arith,
  if◌then◌else◌, Result, ok, inl, inr, ◌⊎◌,
}
use herdr_bridge.Signal.State.{needs_attention, Error}
use herdr_bridge.Signal.Store.{Rows, Row, read_state}
use herdr_bridge.Signal.Store.Writes.{IsTable}
use herdr_bridge.Signal.Ack.{Turn, Reply, state_of, no_update, mark_escalated}
use herdr_bridge.Signal.Ack.Race.{has_known, IsFair}
use herdr_bridge.Signal.Ack.Escalation.{Escalates, mark_escalated-Escalates, can_start}
use herdr_bridge.Signal.Outbound.Sending.{Escalates-reply}
use herdr_bridge.Signal.Outbound.{is_due, told, check_needs_attention}

due_known :
    (now : ℕ) (o : Option Row)
    → is_due now o ≡ true
    → (has_known (state_of o) ≡ true) × (can_start (state_of o) needs_attention ≡ true)
due_known now none h = absurd (ground arith)
due_known now (some r) h = (ground arith, refl)

module _ (turns : ℕ → Turn) (now : ℕ) (m : String) (t : Rows) where
  -- The check says "needs_attention" exactly for a message that stands in "injected" and has stood
  -- there for the threshold, and then escalates it unless the row has moved on meanwhile; in all other
  -- cases it changes nothing. It never raises, where only the daemon touches the row meanwhile.
  pub check_needs_attention_cases :
      ((i : ℕ) → IsFair m (turns i))
      → IsTable t
      → ((is_due now (read_state m t) ≡ false)
          × (check_needs_attention turns now m t ≡ (ok false, t)))
        ⊎ ((is_due now (read_state m t) ≡ true)
            × (reply : Reply) × (check_needs_attention turns now m t ≡ (ok true, reply.1))
            × Escalates m needs_attention no_update turns t reply)
  unfolding check_needs_attention
  check_needs_attention_cases fair h = elim (Bool-cases (is_due now (read_state m t))) [
    | inr not_due ↦ inl (not_due, if_false not_due)
    | inl due ↦
        let (known, start) = due_known now (read_state m t) due in
        let reply = mark_escalated turns m needs_attention no_update t in
        let escalated =
          mark_escalated-Escalates turns m needs_attention no_update t refl fair h known start in
        let (r, t', e) = Escalates-reply m needs_attention no_update turns t reply escalated in
        inr (due, reply, if_true due ∙ (rw e), escalated)
  ]
    where
      escalation : Result Error Bool × Rows
      escalation = told (mark_escalated turns m needs_attention no_update t)

      if_false :
          is_due now (read_state m t) ≡ false
          → (if is_due now (read_state m t) then escalation else (ok false, t)) ≡ (ok false, t)
      if_false e = rw e

      if_true :
          is_due now (read_state m t) ≡ true
          → (if is_due now (read_state m t) then escalation else (ok false, t)) ≡ escalation
      if_true e = rw e
