-- ===== src/Signal/Outbound.antt =====
-- signal/outbound.py: the sender's side. The socket round trips, the clock and what the daemon does
-- to the ACK table of the target project meanwhile are arguments.
pub mod Waiting
pub mod Attempts
pub mod Sending
pub mod Attention
use herdr_bridge.Prelude.{
  ℕ, zero, suc, ◌+◌, ◌*◌, Bool, true, false, not, ◌&&◌, Option, none, some, List, [], ◌∷◌, String,
  ◌==◌, text_key, Result, ok, raise, ltb, leb, if◌then◌else◌,
}
use herdr_bridge.Signal.State.{
  State, seen, accepted_for_work, completed, daemon_unreachable, injection_unconfirmed,
  needs_attention, Error, member, same,
}
use herdr_bridge.Signal.Store.{Row, Rows, read_state}
use herdr_bridge.Signal.Ack.{
  Turn, Reply, state_of, named, no_update, mark_accepted, mark_escalated, get_signal_state,
  find_active_signal_by_target,
}

-- What one connection to the daemon's socket brought: an OSError or a timeout, a line that is no JSON
-- or is empty, a line of so many bytes with its "status" and "message_id", or a reply on which an exception
-- escapes: JSON that is no object, bytes that are no UTF-8, or a line over the limit of the reader.
pub data Answer : Type 0 where
  failed : Answer
  unreadable : Answer
  answered : ℕ → String → String → Answer
  garbled : Answer

abbrev pub max_line_bytes : ℕ
max_line_bytes = 64 * 1024

-- `_try_once`; none is an exception.
unfoldable pub try_once : String → Answer → Option Bool
try_once m failed = some false
try_once m unreadable = some false
try_once m (answered bytes status id) =
    if ltb max_line_bytes bytes then some false else some (status == "accepted" && id == m)
try_once m garbled = none

-- The next attempt is made only after a False.
abbrev pub or_later : Option Bool → Option Bool → Option Bool
or_later none later = none
or_later (some true) later = some true
or_later (some false) later = later

-- The answers to the attempts that are left: the first one, and one after each retry delay.
unfoldable pub any_accepted : String → List Answer → Option Bool
unfolding try_once
any_accepted m [] = some false
any_accepted m (a ∷ rest) = let later = any_accepted m rest in or_later (try_once m a) later

-- `_send_with_retries`: ACCEPT_RETRY_DELAYS_SECONDS has two delays.
unfoldable pub send_with_retries : String → Answer → Answer → Answer → Option Bool
unfolding any_accepted
send_with_retries m first second third = any_accepted m (first ∷ second ∷ third ∷ [])

-- INJECTED_TIMEOUT_SECONDS is the merge window of the daemon and three seconds.
abbrev pub merge_window : ℕ
merge_window = 10 * 1000

abbrev pub injected_timeout : ℕ
injected_timeout = merge_window + 3 * 1000

abbrev pub poll_interval : ℕ
poll_interval = 100

abbrev pub needs_attention_threshold : ℕ
needs_attention_threshold = 60 * 1000

-- _INJECTED_OR_LATER_STATES
abbrev pub injected_or_later : List State
injected_or_later = State.injected ∷ seen ∷ accepted_for_work ∷ completed ∷ []

-- row and row["state"] in target_states
abbrev pub is_in : List State → Option Row → Bool
is_in targets none = false
is_in targets (some r) = member r.state targets

-- One round of the loop of `_wait_for_state`: the clock at its test, and what others have done to the
-- table before it reads the row.
pub record Poll : Type 0 where
  pub clock : ℕ
  pub before_read : Rows → Rows

-- `_wait_for_state` with fuel, from round `k` on: the verdict, and the table as it is then. `none`
-- means that the fuel ran out.
unfoldable pub wait_for_state :
    ℕ → (ℕ → Poll) → ℕ → ℕ → String → List State → Rows → Option (Bool × Rows)
wait_for_state zero polls k deadline m targets t = none
wait_for_state (suc fuel) polls k deadline m targets t =
    let t' = (polls k).before_read t in
    let found = is_in targets (read_state m t') in
    let again = wait_for_state fuel polls (suc k) deadline m targets t' in
    if ltb (polls k).clock deadline
    then if found then some (true, t') else again
    else some (found, t')

pub data Status : Type 0 where
  injected unreachable injection_failed_transient deduplicated_inflight : Status

-- Everything that a call of `send` meets. The marks take the turns of their passes.
pub record World : Type 0 where
  pub first : Answer
  pub second : Answer
  pub third : Answer
  pub escalating : ℕ → Turn
  pub accepting : ℕ → Turn
  pub polls : ℕ → Poll
  pub start : ℕ  -- the clock when `_wait_for_state` sets its deadline
  pub fuel : ℕ
  pub now : ℕ

-- `Status`, an exception of a mark, one of an attempt, or fuel that ran out.
pub data Sent : Type 0 where
  sent : Status → Rows → Sent
  raised : Error → Rows → Sent
  broken : Rows → Sent
  no_fuel : Sent

abbrev pub after_mark : Reply → (Rows → Sent) → Sent
after_mark (ok r, t) next = next t
after_mark (raise e, t) next = raised e t

-- The status of a send that the daemon took and did not confirm: `active` is another message for the
-- same target that is in flight.
abbrev pub unconfirmed : Option Row → Status
unconfirmed none = injection_failed_transient
unconfirmed (some r) = deduplicated_inflight

-- From the verdict of `_wait_for_state` on.
abbrev pub confirm : World → String → String → String → Option (Bool × Rows) → Sent
confirm w m to_project inbox_ref none = no_fuel
confirm w m to_project inbox_ref (some (true, t)) = sent Status.injected t
confirm w m to_project inbox_ref (some (false, t)) =
    after_mark (mark_escalated w.escalating m injection_unconfirmed no_update t) (λ t'.
      sent (unconfirmed (find_active_signal_by_target w.now to_project inbox_ref (some m) t')) t')

-- What follows the attempts.
abbrev pub after_attempts : Option Bool → Rows → Sent → Sent → Sent
after_attempts none t taken lost = broken t
after_attempts (some true) t taken lost = taken
after_attempts (some false) t taken lost = lost

-- send
unfoldable pub send : World → String → String → String → String → Rows → Sent
unfolding send_with_retries
send w m from_project to_project inbox_ref t =
    after_attempts (send_with_retries m w.first w.second w.third) t
      (after_mark (mark_accepted w.accepting m from_project to_project inbox_ref t) (λ t'.
        confirm w m to_project inbox_ref
          (wait_for_state w.fuel w.polls 0 (w.start + injected_timeout) m injected_or_later t')))
      (after_mark
        (mark_escalated w.escalating m daemon_unreachable (named from_project to_project inbox_ref)
          t)
        (λ t'. sent unreachable t'))

-- `time.time() - row["injected_at"] < threshold`, without the subtraction.
abbrev pub has_waited : ℕ → Option ℕ → Bool
has_waited now none = false
has_waited now (some injected_at) = leb (injected_at + needs_attention_threshold) now

abbrev pub is_due : ℕ → Option Row → Bool
is_due now none = false
is_due now (some r) = same r.state State.injected && has_waited now r.injected_at

-- The reply of `check_needs_attention`: whether it says "needs_attention", or the error of the mark.
abbrev pub told : Reply → Result Error Bool × Rows
told (ok r, t) = (ok true, t)
told (raise e, t) = (raise e, t)

unfoldable pub check_needs_attention : (ℕ → Turn) → ℕ → String → Rows → Result Error Bool × Rows
check_needs_attention turns now m t =
    if is_due now (get_signal_state m t)
    then told (mark_escalated turns m needs_attention no_update t)
    else (ok false, t)
