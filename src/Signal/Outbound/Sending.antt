-- ===== src/Signal/Outbound/Sending.antt =====
-- `send` as a whole.
use herdr_bridge.Prelude.{
  List, [], ◌∷◌, ℕ, suc, ◌+◌, ◌≤◌, ◌<◌, ◌≡◌, true, some, String, inl, inr, ◌⊎◌, ok,
}
use herdr_bridge.Signal.State.{State}
use herdr_bridge.Signal.Store.{Row, Rows, read_state}
use herdr_bridge.Signal.Ack.{Turn, Update, Reply, find_active_signal_by_target}
use herdr_bridge.Signal.Ack.Quiet.{landed, landed_row}
use herdr_bridge.Signal.Ack.Race.{IsDaemon, IsFair}
use herdr_bridge.Signal.Ack.Escalation.{Escalates}
use herdr_bridge.Signal.Outbound.Attempts.{IsAcknowledged, IsUnanswered, IsBroken}
use herdr_bridge.Signal.Outbound.{
  Answer, broken, World, Sent, Status, unreachable, unconfirmed, sent, is_in, injected_or_later,
  poll_interval, injected_timeout,
}

-- The daemon alone advances the row while the sender is between its steps; the clock of the polls
-- starts no earlier than the deadline was set and moves by the poll interval at least; and the fuel
-- is more than the polls that fit in the timeout.
pub record IsFairWorld (m : String) (w : World) : Type 0 where
  pub escalating : (i : ℕ) → IsFair m (w.escalating i)
  pub accepting : (i : ℕ) → IsFair m (w.accepting i)
  pub polls : (i : ℕ) → IsDaemon m (w.polls i).before_read
  pub starts : w.start ≤ (w.polls 0).clock
  pub sleeps : (i : ℕ) → (w.polls i).clock + poll_interval ≤ (w.polls (suc i)).clock
  pub enough : 130 < w.fuel

abbrev pub answers : World → List Answer
answers w = w.first ∷ w.second ∷ w.third ∷ []

-- What a status says, with the table as `send` leaves it.
abbrev pub Says : World → String → String → String → Status → Rows → Type 0
Says w m to_project inbox_ref s t =
    (IsUnanswered m (answers w) × (s ≡ unreachable))
    ⊎ (IsAcknowledged m (answers w)
        × (s ≡ Status.injected)
        × (is_in injected_or_later (read_state m t) ≡ true))
    ⊎ (IsAcknowledged m (answers w)
        × (s ≡ unconfirmed (find_active_signal_by_target w.now to_project inbox_ref (some m) t))
        × ((j : ℕ) × (w.start + injected_timeout ≤ (w.polls j).clock)))

abbrev pub Settles : World → String → String → String → Sent → Type 0
Settles w m to_project inbox_ref x =
    (s : Status) × (t : Rows) × (x ≡ sent s t) × Says w m to_project inbox_ref s t

-- A status, or the exception of an attempt, before which nothing was written.
abbrev pub Ends : World → String → String → String → Rows → Sent → Type 0
Ends w m to_project inbox_ref t x =
    Settles w m to_project inbox_ref x ⊎ (IsBroken m (answers w) × (x ≡ broken t))

pub Escalates-reply :
    (m : String) (reason : State) (u : Update) (turns : ℕ → Turn) (t : Rows) (reply : Reply)
    → Escalates m reason u turns t reply
    → (r : Row) × (t' : Rows) × (reply ≡ (ok r, t'))
Escalates-reply m reason u turns t reply e = elim e.outcome [
  | inl (r, found, stale, same) ↦ (r, e.before, same)
  | inr (v, same) ↦ (
    landed_row (turns e.pass) m reason u e.before,
    landed (turns e.pass) m reason u e.before,
    same,
  )
]
