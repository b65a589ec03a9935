-- ===== src/Signal/Ack.antt =====
-- The functions of orchestration/memory.py that write and read the Signal ACK state. Each takes the
-- table of one project's store. Sender, daemon and agent are processes of their own, so a call
-- gives way to the others wherever it opens the database anew: a `Turn` says what they do there.
pub mod Quiet
pub mod Race
pub mod Reasons
pub mod Escalation
pub mod Lost
pub mod Marks
use herdr_bridge.Prelude.{
  ℕ, zero, suc, ◌+◌, Bool, true, false, not, ◌&&◌, ◌||◌, Option, none, some, List, [], ◌∷◌, String,
  ◌==◌, text_key, Result, ok, raise, if◌then◌else◌, ltb,
}
use herdr_bridge.Signal.State.{
  State, accepted, injected, seen, accepted_for_work, completed, daemon_unreachable,
  injection_unconfirmed, needs_attention, same, member, transitions, validate, Error, value_error,
  signal_state_write_failed,
}
use herdr_bridge.Signal.Store.{
  Row, Rows, Fields, write_state, read_state, default_ttl, find_active_by_target, list_recent,
  default_inflight_timeout,
}

-- What other processes do before each access of one attempt, and the two clock readings that it
-- takes: `stamp` by the mark, `now` by `write_state`.
pub record Turn : Type 0 where
  pub before_read : Rows → Rows
  pub before_check : Rows → Rows
  pub before_write : Rows → Rows
  pub before_verify : Rows → Rows
  pub stamp : ℕ
  pub now : ℕ

-- The keyword arguments of `_write_signal_state`.
pub record Update : Type 0 where
  pub from_project : Option String
  pub to_project : Option String
  pub inbox_ref : Option String
  pub attempt_count : Option ℕ
  pub accepted_at : Option ℕ
  pub injected_at : Option ℕ
  pub seen_at : Option ℕ

abbrev pub no_update : Update
no_update = record {
  from_project = none;
  to_project = none;
  inbox_ref = none;
  attempt_count = none;
  accepted_at = none;
  injected_at = none;
  seen_at = none;
}

abbrev pub Reply : Type 0
Reply = Result Error Row × Rows

-- `value or fallback` on texts: an empty text is false.
abbrev pub text_or : Option String → String → String
text_or none fallback = fallback
text_or (some s) fallback = if s == "" then fallback else s

abbrev pub column : (Row → String) → Option Row → String
column f none = ""
column f (some r) = f r

abbrev pub state_of : Option Row → Option State
state_of none = none
state_of (some r) = some r.state

abbrev pub fields : Option Row → State → Update → Fields
fields current new u = record {
  from_project = text_or u.from_project (column (λ r. r.from_project) current);
  to_project = text_or u.to_project (column (λ r. r.to_project) current);
  inbox_ref = text_or u.inbox_ref (column (λ r. r.inbox_ref) current);
  state = new;
  attempt_count = u.attempt_count;
  accepted_at = u.accepted_at;
  injected_at = u.injected_at;
  seen_at = u.seen_at;
}

-- The read-back of `_write_signal_state`.
abbrev pub verified : State → Option Row → Result Error Row
verified new none = raise signal_state_write_failed
verified new (some r) = if same r.state new then ok r else raise signal_state_write_failed

-- `_write_signal_state` once the transition has been validated against `current`.
unfoldable pub commit : Turn → String → State → Update → Option Row → Rows → Reply
commit turn m new u current t =
    let t' =
      turn.before_verify
        (write_state turn.now default_ttl m (fields current new u) (turn.before_write t)) in
    (verified new (read_state m t'), t')

-- _write_signal_state
unfoldable pub write_signal_state : Turn → String → State → Update → Rows → Reply
unfolding commit
write_signal_state turn m new u t =
    let t' = turn.before_check t in
    let current = read_state m t' in
    elim (validate (state_of current) new) [
      | ok _ ↦ commit turn m new u current t'
      | raise e ↦ (raise e, t')
    ]

-- The state that `mark_accepted` writes: whatever lies beyond "accepted" stays.
abbrev pub accepted_target : Option State → State
accepted_target none = accepted
accepted_target (some s) = s

-- `except ValueError: continue`; any other error leaves the loop.
abbrev pub retry : Reply → (Rows → Reply) → Reply
retry (ok r, t) again = (ok r, t)
retry (raise value_error, t) again = again t
retry (raise signal_state_write_failed, t) again = (raise signal_state_write_failed, t)

-- _SIGNAL_WRITE_RACE_RETRY_ATTEMPTS
abbrev pub race_retry_attempts : ℕ
race_retry_attempts = 3

-- One pass of the loop of `mark_accepted`.
unfoldable pub accepted_attempt : Turn → String → Update → Rows → Reply
accepted_attempt turn m u t =
    let t' = turn.before_read t in
    write_signal_state turn m (accepted_target (state_of (read_state m t')))
      (record u { accepted_at = some turn.stamp }) t'

-- The loops of `mark_accepted` and `mark_escalated`: `turns k` is the pass with `k` passes to come,
-- and after the last pass the last error is raised.
unfoldable pub attempts : ℕ → (ℕ → Turn) → (Turn → Rows → Reply) → Rows → Reply
attempts zero turns pass t = (raise value_error, t)
attempts (suc k) turns pass t = let again = attempts k turns pass in retry (pass (turns k) t) again

abbrev pub named : String → String → String → Update
named from_project to_project inbox_ref = record no_update {
  from_project = some from_project;
  to_project = some to_project;
  inbox_ref = some inbox_ref;
}

unfoldable pub mark_accepted : (ℕ → Turn) → String → String → String → String → Rows → Reply
unfolding attempts
mark_accepted turns m from_project to_project inbox_ref =
    attempts race_retry_attempts turns
      (λ turn. accepted_attempt turn m (named from_project to_project inbox_ref))

unfoldable pub mark_injected : Turn → String → Rows → Reply
mark_injected turn m =
    write_signal_state turn m injected (record no_update { injected_at = some turn.stamp })

-- The reasons that `mark_escalated` takes.
abbrev pub is_reason : State → Bool
is_reason daemon_unreachable = true
is_reason injection_unconfirmed = true
is_reason needs_attention = true
is_reason _ = false

-- The guard of the loop: the row stands in another state, from which `reason` is no transition.
abbrev pub is_stale : Option State → State → Bool
is_stale none reason = false
is_stale (some s) reason = not (same s reason) && not (member reason (transitions (some s)))

-- `return current`, or the write.
abbrev pub escalate : Turn → String → State → Update → Option Row → Rows → Reply
escalate turn m reason u none t = write_signal_state turn m reason u t
escalate turn m reason u (some r) t =
    if is_stale (some r.state) reason then (ok r, t) else write_signal_state turn m reason u t

-- One pass of the loop of `mark_escalated`.
unfoldable pub escalated_attempt : Turn → String → State → Update → Rows → Reply
escalated_attempt turn m reason u t =
    let t' = turn.before_read t in escalate turn m reason u (read_state m t') t'

unfoldable pub mark_escalated : (ℕ → Turn) → String → State → Update → Rows → Reply
unfolding attempts
mark_escalated turns m reason u t =
    if is_reason reason
    then attempts race_retry_attempts turns (λ turn. escalated_attempt turn m reason u) t
    else (raise value_error, t)

unfoldable pub mark_seen : Turn → String → Rows → Reply
mark_seen turn m = write_signal_state turn m seen (record no_update { seen_at = some turn.stamp })

unfoldable pub mark_accepted_for_work : Turn → String → Rows → Reply
mark_accepted_for_work turn m = write_signal_state turn m accepted_for_work no_update

unfoldable pub mark_completed : Turn → String → Rows → Reply
mark_completed turn m = write_signal_state turn m completed no_update

abbrev pub get_signal_state : String → Rows → Option Row
get_signal_state m t = read_state m t

unfoldable pub find_active_signal_by_target :
    ℕ → String → String → Option String → Rows → Option Row
find_active_signal_by_target now to_project inbox_ref exclude =
    find_active_by_target now default_inflight_timeout to_project inbox_ref exclude
