-- ===== src/Signal/Ack/Escalation.antt =====
-- `mark_escalated` against a daemon that advances the row meanwhile.
use mathlib.Core.Path.{subst}
use herdr_bridge.Prelude.{
  ℕ, zero, suc, ◌<◌, ◌≡◌, refl, Bool, true, false, Option, none, some, String, ok, raise, arith,
  if◌then◌else◌, ◌⊎◌, inl, inr, Option-cases, Bool-cases,
}
use herdr_bridge.Signal.State.{
  State, value_error, validate, daemon_unreachable, injection_unconfirmed, needs_attention,
}
use herdr_bridge.Signal.Store.{Row, Rows, read_state}
use herdr_bridge.Signal.Store.Writes.{IsTable}
use herdr_bridge.Signal.Ack.Quiet.{landed, landed_row, write-allowed, write-refused}
use herdr_bridge.Signal.Ack.Race.{
  Progress, Progress-trans, Progress-known, rank, rank-le, rank-lt, has_known, IsFair,
}
use herdr_bridge.Signal.Ack.{
  Turn, Update, Reply, state_of, write_signal_state, is_reason, is_stale, escalated_attempt,
  attempts, retry, mark_escalated,
}
use herdr_bridge.Signal.Ack.Reasons.{may_escalate, stale-may_escalate, valid-may_escalate}

-- What the last pass found and did: `before` is the table as the daemon had left it.
abbrev pub Outcome : String → State → Update → Turn → Rows → Reply → Type 0
Outcome m reason u turn before reply =
    ((r : Row) × (read_state m before ≡ some r)
      × (may_escalate (some r.state) reason ≡ false)
      × (reply ≡ (ok r, before)))
    ⊎ ((may_escalate (state_of (read_state m before)) reason ≡ true)
        × (reply ≡ (ok (landed_row turn m reason u before), landed turn m reason u before)))

pub record Escalates (m : String) (reason : State) (u : Update) (turns : ℕ → Turn) (start : Rows)
    (reply : Reply) : Type 0 where
  pub pass : ℕ
  pub before : Rows
  pub reached : Progress (state_of (read_state m start)) (state_of (read_state m before))
  pub outcome : Outcome m reason u (turns pass) before reply

-- A row that is not there can only be escalated as unreachable.
abbrev pub can_start : Option State → State → Bool
can_start none daemon_unreachable = true
can_start none _ = false
can_start (some s) reason = true

pub can_start-Progress :
    (a b : Option State) (reason : State)
    → Progress a b
    → can_start a reason ≡ true
    → can_start b reason ≡ true
can_start-Progress none none reason p c = c
can_start-Progress none (some b) reason p c = refl
can_start-Progress (some a) none reason p c = absurd (ground arith)
can_start-Progress (some a) (some b) reason p c = refl

abbrev goes_on : Option State → State → Bool
goes_on none reason = true
goes_on (some s) reason = if is_stale (some s) reason then false else true

escalated_check :
    (a b : Option State) (reason : State)
    → Progress a b
    → has_known a ≡ true
    → is_reason reason ≡ true
    → can_start a reason ≡ true
    → goes_on a reason ≡ true
    → (validate b reason ≡ ok tt) ⊎ ((validate b reason ≡ raise value_error) × (rank b < rank a))
unfolding validate
escalated_check a b daemon_unreachable p k i c g = ground arith
escalated_check a b injection_unconfirmed p k i c g = ground arith
escalated_check a b needs_attention p k i c g = ground arith
escalated_check a b _ p k i c g = absurd (cc)

module _ (m : String) (reason : State) (u : Update) (turns : ℕ → Turn) where
  Escalates-back :
      (s t : Rows) (reply : Reply)
      → Progress (state_of (read_state m s)) (state_of (read_state m t))
      → Escalates m reason u turns t reply
      → Escalates m reason u turns s reply
  Escalates-back s t reply p r = record {
    pass = r.pass;
    before = r.before;
    reached = Progress-trans _ _ _ p r.reached;
    outcome = r.outcome;
  }

  Escalates-retry :
      (t : Rows) (reply : Reply) (again : Rows → Reply)
      → Escalates m reason u turns t reply
      → Escalates m reason u turns t (retry reply again)
  Escalates-retry t reply again r =
      let same_reply : reply ≡ retry reply again = elim r.outcome [
        | inl (x, found, stale, e) ↦ rw e
        | inr (v, e) ↦ rw e
      ] in
      subst (Escalates m reason u turns t) same_reply r

module _ (m : String) (reason : State) (u : Update) (turns : ℕ → Turn)
    (is_one : is_reason reason ≡ true) (fair : (i : ℕ) → IsFair m (turns i)) where
  Failed : Rows → Reply → Type 0
  Failed t reply =
      (t' : Rows) × (reply ≡ (raise value_error, t'))
      × IsTable t'
      × Progress (state_of (read_state m t)) (state_of (read_state m t'))
      × (rank (state_of (read_state m t')) < rank (state_of (read_state m t)))

  -- The pass goes on to the write.
  write_pass :
      (k : ℕ) (t : Rows)
      → let t1 = (turns k).before_read t in
        IsTable t
        → has_known (state_of (read_state m t)) ≡ true
        → can_start (state_of (read_state m t)) reason ≡ true
        → goes_on (state_of (read_state m t1)) reason ≡ true
        → Escalates m reason u turns t (write_signal_state (turns k) m reason u t1)
          ⊎ Failed t (write_signal_state (turns k) m reason u t1)
  unfolding Failed
  write_pass k t h known start on =
      let turn = turns k in
      let t1 = turn.before_read t in
      let t2 = turn.before_check t1 in
      let p1 = (fair k).reading.advances t h in
      let p2 = (fair k).checking.advances t1 ((fair k).reading.keeps t h) in
      let p = Progress-trans _ _ _ p1 p2 in
      let h2 = (fair k).checking.keeps t1 ((fair k).reading.keeps t h) in
      elim (escalated_check _ _ reason p2 (Progress-known _ _ p1 known) is_one
        (can_start-Progress _ _ reason p1 start) on) [
          | inl v ↦ inl (record {
            pass = k;
            before = t2;
            reached = p;
            outcome = inr (
              valid-may_escalate _ reason is_one v,
              write-allowed turn m reason u t1 (fair k).atomic h2 v,
            );
          })
          | inr (v, lower) ↦ inr (
            t2,
            write-refused turn m reason u t1 value_error v,
            h2,
            p,
            omega (arith, rank-le _ _ p1),
          )
        ]

  escalated_pass :
      (k : ℕ) (t : Rows)
      → IsTable t
      → has_known (state_of (read_state m t)) ≡ true
      → can_start (state_of (read_state m t)) reason ≡ true
      → Escalates m reason u turns t (escalated_attempt (turns k) m reason u t)
        ⊎ Failed t (escalated_attempt (turns k) m reason u t)
  unfolding escalated_attempt
  escalated_pass k t h known start =
      let t1 = (turns k).before_read t in
      let p1 = (fair k).reading.advances t h in
      let written = write_pass k t h known start in
      elim (Option-cases (read_state m t1)) [
        | inl absent ↦ rw absent (written (rw absent))
        | inr (r, found) ↦ elim (Bool-cases (is_stale (some r.state) reason)) [
          | inl stale ↦ inl (record {
            pass = k;
            before = t1;
            reached = p1;
            outcome =
                inl (r, found, stale-may_escalate r.state reason is_one stale, rw (found, stale));
          })
          | inr live ↦ rw (found, live) (written (rw (found, live)))
        ]
      ]

  escalated_loop :
      (k : ℕ) (t : Rows)
      → IsTable t
      → has_known (state_of (read_state m t)) ≡ true
      → can_start (state_of (read_state m t)) reason ≡ true
      → rank (state_of (read_state m t)) < k
      → Escalates m reason u turns t
          (attempts k turns (λ turn. escalated_attempt turn m reason u) t)
  unfolding attempts Failed
  escalated_loop zero t h known start lt = absurd (omega arith)
  escalated_loop (suc k) t h known start lt = elim (escalated_pass k t h known start) [
    | inl r ↦ Escalates-retry m reason u turns t _ _ r
    | inr (t', e, h', p, lower) ↦ rw e (
        Escalates-back m reason u turns t t' _ p (
          escalated_loop k t' h' (Progress-known _ _ p known)
            (can_start-Progress _ _ reason p start) (omega arith)))
  ]

pub mark_escalated-Escalates :
    (turns : ℕ → Turn) (m : String) (reason : State) (u : Update) (t : Rows)
    → is_reason reason ≡ true
    → ((i : ℕ) → IsFair m (turns i))
    → IsTable t
    → has_known (state_of (read_state m t)) ≡ true
    → can_start (state_of (read_state m t)) reason ≡ true
    → Escalates m reason u turns t (mark_escalated turns m reason u t)
unfolding mark_escalated
mark_escalated-Escalates turns m reason u t one fair h known start =
    rw one (escalated_loop m reason u turns one fair 3 t h known start (rank-lt _))
